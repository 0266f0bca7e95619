-- ===== src/Application/GoalListingLaws/Paging.antt =====
-- The cursor of a page of goals, and the page.
use cycle.Base.{
  ℤ, ℕ, ◌⊎◌, eq_iff, zero, suc, ◌+◌, ◌-◌, ◌≤◌, ◌<◌, ◌≡◌, inl, inr, refl, sym, ap, subst, ◌∙◌, true,
  false, Option, none, some, List, [], ◌∷◌, ◌++◌, All, Text, String, text_eq_refl, length,
  length-append, take, get_elem?, ltb, Result, ok, ◌>>=◌, >>=-eq-ok, choose, same_value, fail_if,
  arith,
}
use cycle.Identifier.{is_canonical_uuid_v7}
use cycle.Application.Errors.{AppError, goal_invariant}
use cycle.Application.CycleChecks.{is_zero_time}
use cycle.Application.CycleListing.{CursorCodec, signature_size, page_limit}
use cycle.Application.CycleLaws.Paging.{
  IsCodec, take-append, drop-append, take-All, length-take-le, page_limit-le, take_all, some_value,
}
use cycle.Application.GoalListing.{
  GoalListScope, GoalListKeyset, GoalListQuery, GoalQueryRow, GoalPage, GoalCursorPayload,
  scope_text, select_scope, goal_cursor_category_matches_scope, goal_payload_of, goal_keyset_with,
  goal_keyset_of, validate_goal_query_rows, views_of, encode_goal_cursor, open_goal_cursor,
  decode_goal_cursor, goal_cursor_after, goal_page_of, list_goals,
}
use cycle.Application.GoalListingLaws.Order.{
  AreDescending, Covers-matches, IsInScope, RowFollows, validate_goal_query_rows-AreDescending,
}

-- The last row makes a cursor: its time is set, its identifier canonical, its category in the scope.
unfoldable pub IsKey : GoalListScope → GoalListKeyset → Type 0
IsKey scope k =
    (is_zero_time k.sort_time ≡ false)
    × (is_canonical_uuid_v7 k.goal_id ≡ true)
    × (goal_cursor_category_matches_scope k.category scope ≡ true)

-- The scope that a request names: all goals if it names none.
abbrev pub Names : String → GoalListScope → Type 0
Names scope GoalListScope.all = (scope ≡ "") ⊎ (scope ≡ "all")
Names scope GoalListScope.progressing = scope ≡ "progressing"
Names scope GoalListScope.history = scope ≡ "history"

select_scope-Names :
    (scope : String) (selected : GoalListScope)
    → select_scope scope ≡ ok selected
    → Names scope selected
unfolding select_scope
select_scope-Names scope GoalListScope.all h =
    ground (arith, h, eq_iff scope "", eq_iff scope "all")
select_scope-Names scope GoalListScope.progressing h = ground (arith, h, eq_iff scope "progressing")
select_scope-Names scope GoalListScope.history h = ground (arith, h, eq_iff scope "history")

-- The identifier of the row's goal is canonical.
unfoldable pub IsCanonical : GoalQueryRow → Type 0
IsCanonical row = is_canonical_uuid_v7 row.view.id ≡ true

module _ (codec : CursorCodec GoalCursorPayload) (codes_well : IsCodec codec) where
  goal_keyset_of-goal_payload_of :
      (scope : GoalListScope) (k : GoalListKeyset)
      → IsKey scope k
      → goal_keyset_of (some (goal_payload_of scope k)) scope ≡ ok k
  unfolding goal_keyset_of goal_keyset_with goal_payload_of IsKey
  goal_keyset_of-goal_payload_of scope k (t, c, m) =
      ground (arith, text_eq_refl (scope_text scope), t, c, m)

  open-signed_goal :
      (body : Text) (scope : GoalListScope)
      → 0 < length body
      → open_goal_cursor codec (some (body ++ codec.hmac body)) scope
        ≡ goal_keyset_of (codec.unmarshal body) scope
  unfolding open_goal_cursor
  open-signed_goal body scope h =
      let n : length (body ++ codec.hmac body) ≡ length body + signature_size =
        omega (arith, length-append body (codec.hmac body), codes_well.size body) in
      let m : length (body ++ codec.hmac body) - signature_size ≡ length body = omega (arith, n) in
      rw
        (
          m,
          take-append body (codec.hmac body),
          drop-append body (codec.hmac body),
          text_eq_refl (codec.hmac body),
        )
        (ground (arith, n))

  -- A cursor that was made for a key of a scope opens, for the same scope, to that key.
  pub decode-encode_goal_cursor :
      (scope : GoalListScope) (k : GoalListKeyset) {c : Text}
      → IsKey scope k
      → encode_goal_cursor codec scope k ≡ ok c
      → decode_goal_cursor codec c scope ≡ ok (some k)
  unfolding encode_goal_cursor decode_goal_cursor
  decode-encode_goal_cursor scope k {c} key h =
      let (body, m, h) = >>=-eq-ok (codec.marshal (goal_payload_of scope k)) _ h in
      let raw = body ++ codec.hmac body in
      let e : codec.encode raw ≡ c = cc in
      let full = codes_well.written (goal_payload_of scope k) body m in
      let v = codes_well.visible raw (omega (arith, length-append body (codec.hmac body), full)) in
      let opened : open_goal_cursor codec (some raw) scope ≡ ok k =
        open-signed_goal body scope full
        ∙ ap (λ (o : Option GoalCursorPayload). goal_keyset_of o scope)
            (codes_well.unmarshal (goal_payload_of scope k) body m)
        ∙ goal_keyset_of-goal_payload_of scope k key in
      subst (λ (x : Text). decode_goal_cursor codec x scope ≡ ok (some k)) e
        (rw (v, codes_well.decode raw, opened) refl)

  -- The cursor of a page opens to its last row; the last page has none.
  unfoldable pub CursorOpens : Option Text → ℕ → List GoalQueryRow → GoalListScope → Type 0
  CursorOpens none limit rows scope = length rows ≤ limit
  CursorOpens (some c) limit rows scope =
      (last : GoalQueryRow) × (get_elem? rows (limit - 1) ≡ some last)
      × (decode_goal_cursor codec c scope
          ≡ ok (
              some (record {
                category = last.category;
                sort_time = last.sort_time;
                goal_id = last.view.id;
              })))

  row_at-IsKey :
      (scope : GoalListScope) (rows : List GoalQueryRow) (n : ℕ) {row : GoalQueryRow}
      → All (IsInScope scope) rows
      → All IsCanonical rows
      → get_elem? rows n ≡ some row
      → IsKey scope
          (record { category = row.category; sort_time = row.sort_time; goal_id = row.view.id })
  unfolding IsKey IsInScope IsCanonical
  row_at-IsKey scope [] n h k p = ground arith
  row_at-IsKey scope (r ∷ rows) zero ((m, c, w, t), hs) (k, ks) p =
      subst
        (λ (x : GoalQueryRow).
          IsKey scope
            (record { category = x.category; sort_time = x.sort_time; goal_id = x.view.id }))
        (some_value p) (t, k, Covers-matches scope r.category m)
  row_at-IsKey scope (r ∷ rows) (suc n) (h, hs) (k, ks) p = row_at-IsKey scope rows n hs ks p

  goal_cursor_after-CursorOpens :
      (found : Option GoalQueryRow) (limit : ℕ) (rows : List GoalQueryRow) (scope : GoalListScope)
      {next : Option Text}
      → get_elem? rows (limit - 1) ≡ found
      → All (IsInScope scope) rows
      → All IsCanonical rows
      → goal_cursor_after codec found scope ≡ ok next
      → CursorOpens next limit rows scope
  unfolding goal_cursor_after CursorOpens
  goal_cursor_after-CursorOpens none limit rows scope e scoped ids h = cc
  goal_cursor_after-CursorOpens (some last) limit rows scope {next} e scoped ids h =
      let k : GoalListKeyset = record {
        category = last.category;
        sort_time = last.sort_time;
        goal_id = last.view.id;
      } in
      let (c, m, h) = >>=-eq-ok (encode_goal_cursor codec scope k) _ h in
      let n : some c ≡ next = cc in
      subst (λ (x : Option Text). CursorOpens x limit rows scope) n
        (
          last,
          e,
          decode-encode_goal_cursor scope k (row_at-IsKey scope rows (limit - 1) scoped ids e) m,
        )

  -- A page of `rows`, which the query answered: the goals of the first rows, at most `limit`.
  pub record IsGoalPage (limit : ℕ) (scope : GoalListScope) (rows : List GoalQueryRow)
      (page : GoalPage) : Type 0 where
    pub items : page.items ≡ views_of (take limit rows)
    pub short : length (take limit rows) ≤ limit
    pub sorted : AreDescending (take limit rows)
    pub scoped : All (IsInScope scope) (take limit rows)
    pub next : CursorOpens page.next_cursor limit rows scope

take-AreDescending :
    (n : ℕ) (rows : List GoalQueryRow) → AreDescending rows → AreDescending (take n rows)
unfolding AreDescending
take-AreDescending zero rows h = tt
take-AreDescending (suc n) [] h = tt
take-AreDescending (suc n) (r ∷ rows) (h, hs) =
    (take-All (RowFollows r) n rows h, take-AreDescending n rows hs)

module _ (codec : CursorCodec GoalCursorPayload) (codes_well : IsCodec codec) where
  goal_page_of-IsGoalPage :
      (rows : List GoalQueryRow) (limit : ℕ) (scope : GoalListScope) {page : GoalPage}
      → AreDescending rows
      → All (IsInScope scope) rows
      → All IsCanonical rows
      → goal_page_of codec rows limit scope ≡ ok page
      → IsGoalPage codec codes_well limit scope rows page
  unfolding goal_page_of CursorOpens
  goal_page_of-IsGoalPage rows limit scope {page} sorted scoped ids h =
      let found = get_elem? rows (limit - 1) in
      elim (choose (ltb limit (length rows))
        (goal_cursor_after codec found scope >>= λ next.
          ok (record { items = views_of (take limit rows); next_cursor = next }))
        (ok (record { items = views_of rows; next_cursor = none })) h) [
          | inl (q, h) ↦
              let (next, m, h) = >>=-eq-ok (goal_cursor_after codec found scope) _ h in
              same_value (IsGoalPage codec codes_well limit scope rows) h (record {
                items = refl;
                short = length-take-le limit rows;
                sorted = take-AreDescending limit rows sorted;
                scoped = take-All (IsInScope scope) limit rows scoped;
                next =
                    goal_cursor_after-CursorOpens codec codes_well found limit rows scope refl
                      scoped ids m;
              })
          | inr (q, h) ↦
              let short : length rows ≤ limit = ground (arith, q) in
              same_value (IsGoalPage codec codes_well limit scope rows) h (record {
                items =
                    ap (λ (x : List GoalQueryRow). views_of x) (sym (take_all limit rows short));
                short = length-take-le limit rows;
                sorted = take-AreDescending limit rows sorted;
                scoped = take-All (IsInScope scope) limit rows scoped;
                next = short;
              })
        ]

  -- If the query answers rows with canonical identifiers, a page of goals shows the first rows that
  -- it answered for the scope that the request names, at most 50, each with the category of its
  -- goal's status, which the scope covers, and each strictly after the ones before it (a greater
  -- category, then an earlier time, then a smaller identifier); its cursor opens to its last row, and
  -- without a cursor no row is left, for a codec as the JSON, Base64 and HMAC packages document it.
  pub list_goals-IsGoalPage :
      (query : GoalListQuery → Result AppError (List GoalQueryRow)) (user scope : String)
      (cursor : Text) (limit : ℤ) {page : GoalPage}
      → ((q : GoalListQuery) (rows : List GoalQueryRow) → query q ≡ ok rows → All IsCanonical rows)
      → list_goals codec query user scope cursor limit ≡ ok page
      → (selected : GoalListScope) × (after : Option GoalListKeyset) × (rows : List GoalQueryRow)
        × Names scope selected
        × (query (record {
          user_id = user;
          scope = selected;
          after = after;
          fetch_limit = page_limit limit + 1;
        })
            ≡ ok rows)
        × (page_limit limit ≤ 50)
        × IsGoalPage codec codes_well (page_limit limit) selected rows page
  unfolding list_goals
  list_goals-IsGoalPage query user scope cursor limit canonical h =
      let (selected, s, h) = >>=-eq-ok (select_scope scope) _ h in
      let (after, a, h) = >>=-eq-ok (decode_goal_cursor codec cursor selected) _ h in
      let (rows, b, h) =
        >>=-eq-ok
          (query (record {
            user_id = user;
            scope = selected;
            after = after;
            fetch_limit = page_limit limit + 1;
          }))
          _ h in
      let (u, c, h) =
        >>=-eq-ok
          (fail_if (ltb (page_limit limit + 1) (length rows))
            (goal_invariant "Goal query returned more rows than requested"))
          _ h in
      let (u', valid, h) = >>=-eq-ok (validate_goal_query_rows rows selected) _ h in
      let (sorted, scoped) = validate_goal_query_rows-AreDescending rows selected valid in
      (
        selected,
        after,
        rows,
        select_scope-Names scope selected s,
        b,
        page_limit-le limit,
        goal_page_of-IsGoalPage rows (page_limit limit) selected sorted scoped (canonical _ rows b)
            h,
      )
