-- ===== src/Application/CycleLaws/Paging.antt =====
-- The cursor of a page of cycles, and the page.
use cycle.Base.{
  ℤ, pos, negsuc, ℕ, zero, suc, ◌+◌, ◌-◌, ◌≤◌, ◌<◌, ◌≡◌, inl, inr, refl, ap, sym, subst, ◌∙◌, true,
  false, Option, none, some, List, [], ◌∷◌, ◌++◌, All, Text, String, text_eq_refl, length,
  length-append, take, drop, get_elem?, ltb, Result, ok, ◌>>=◌, >>=-eq-ok, choose, same_value,
  fail_if, arith,
}
use cycle.GoStrings.{trim_space, is_empty}
use cycle.Identifier.{is_canonical_uuid_v7}
use cycle.Application.Errors.{AppError, cycle_invariant}
use cycle.Application.Views.{CycleSummary, CyclePage}
use cycle.Application.GoalChecks.{not_positive}
use cycle.Application.CycleSummaries.{validate_cycle_summaries}
use cycle.Application.CycleListing.{
  CycleListKeyset, CycleListQuery, CycleCursorPayload, CursorCodec, signature_size, scope_of,
  payload_of, keyset_of, keyset_with, encode_cycle_cursor, open_cursor, decode_cycle_cursor,
  page_limit, cursor_after, page_of, list_cycles,
}
use cycle.Application.CycleLaws.Listing.{
  IsDescending, IsNamed, Follows, validate_cycle_summaries-IsDescending,
}

-- What the JSON, Base64 and HMAC packages document.
pub record IsCodec {P : Type 0} (codec : CursorCodec P) : Type 0 where
  pub unmarshal : (p : P) (b : Text) → codec.marshal p ≡ ok b → codec.unmarshal b ≡ some p
  pub written : (p : P) (b : Text) → codec.marshal p ≡ ok b → 0 < length b
  pub decode : (b : Text) → codec.decode (codec.encode b) ≡ some b
  pub visible : (b : Text) → 0 < length b → is_empty (trim_space (codec.encode b)) ≡ false
  pub size : (b : Text) → length (codec.hmac b) ≡ signature_size

pub take-append : {A : Type 0} (xs ys : List A) → take (length xs) (xs ++ ys) ≡ xs
take-append [] ys = refl
take-append (x ∷ xs) ys = ap (λ (zs : List _). x ∷ zs) (take-append xs ys)

pub drop-append : {A : Type 0} (xs ys : List A) → drop (length xs) (xs ++ ys) ≡ ys
drop-append [] ys = refl
drop-append (x ∷ xs) ys = drop-append xs ys

pub some_value : {A : Type 0} {a b : A} → some a ≡ some b → a ≡ b
some_value h = cc

module _ (codec : CursorCodec CycleCursorPayload) (codes_well : IsCodec codec) where
  keyset_of-payload_of :
      (goal : String) (k : CycleListKeyset)
      → not_positive k.sequence_number ≡ false
      → is_canonical_uuid_v7 k.cycle_id ≡ true
      → keyset_of (some (payload_of goal k)) goal ≡ ok k
  unfolding keyset_of keyset_with payload_of
  keyset_of-payload_of goal k p q = ground (arith, text_eq_refl (scope_of goal))

  open-signed :
      (body : Text) (goal : String)
      → 0 < length body
      → open_cursor codec (some (body ++ codec.hmac body)) goal
        ≡ keyset_of (codec.unmarshal body) goal
  unfolding open_cursor
  open-signed body goal h =
      let n : length (body ++ codec.hmac body) ≡ length body + signature_size =
        omega (arith, length-append body (codec.hmac body), codes_well.size body) in
      let m : length (body ++ codec.hmac body) - signature_size ≡ length body = omega (arith, n) in
      rw
        (
          m,
          take-append body (codec.hmac body),
          drop-append body (codec.hmac body),
          text_eq_refl (codec.hmac body),
        )
        (ground (arith, n))

  -- A cursor that was made for a row with a positive sequence number and a canonical identifier
  -- opens, for the same goal, to that row.
  pub decode-encode_cycle_cursor :
      (goal : String) (k : CycleListKeyset) {c : Text}
      → not_positive k.sequence_number ≡ false
      → is_canonical_uuid_v7 k.cycle_id ≡ true
      → encode_cycle_cursor codec goal k ≡ ok c
      → decode_cycle_cursor codec c goal ≡ ok (some k)
  unfolding encode_cycle_cursor decode_cycle_cursor
  decode-encode_cycle_cursor goal k {c} p q h =
      let (body, m, h) = >>=-eq-ok (codec.marshal (payload_of goal k)) _ h in
      let raw = body ++ codec.hmac body in
      let e : codec.encode raw ≡ c = cc in
      let full = codes_well.written (payload_of goal k) body m in
      let v = codes_well.visible raw (omega (arith, length-append body (codec.hmac body), full)) in
      let opened : open_cursor codec (some raw) goal ≡ ok k =
        open-signed body goal full
        ∙ ap (λ (o : Option CycleCursorPayload). keyset_of o goal)
            (codes_well.unmarshal (payload_of goal k) body m)
        ∙ keyset_of-payload_of goal k p q in
      subst (λ (x : Text). decode_cycle_cursor codec x goal ≡ ok (some k)) e
        (rw (v, codes_well.decode raw, opened) refl)

  row_at :
      (rows : List CycleSummary) (n : ℕ) {row : CycleSummary}
      → All IsNamed rows
      → get_elem? rows n ≡ some row
      → IsNamed row
  row_at [] n h p = ground arith
  row_at (r ∷ rows) zero (h, hs) p = subst IsNamed (some_value p) h
  row_at (r ∷ rows) (suc n) (h, hs) p = row_at rows n hs p

  -- The cursor of a page opens to its last row; the last page has none.
  pub NextOpens : Option Text → ℕ → List CycleSummary → String → Type 0
  NextOpens none limit rows goal = length rows ≤ limit
  NextOpens (some c) limit rows goal =
      (last : CycleSummary) × (get_elem? rows (limit - 1) ≡ some last)
      × (decode_cycle_cursor codec c goal
          ≡ ok (some (record { sequence_number = last.sequence_number; cycle_id = last.id })))

  cursor_after-NextOpens :
      (found : Option CycleSummary) (limit : ℕ) (rows : List CycleSummary) (goal : String)
      {next : Option Text}
      → get_elem? rows (limit - 1) ≡ found
      → All IsNamed rows
      → cursor_after codec found goal ≡ ok next
      → NextOpens next limit rows goal
  unfolding cursor_after NextOpens IsNamed
  cursor_after-NextOpens none limit rows goal e named h = cc
  cursor_after-NextOpens (some last) limit rows goal {next} e named h =
      let (p, q) = row_at rows (limit - 1) named e in
      let k : CycleListKeyset = record {
        sequence_number = last.sequence_number;
        cycle_id = last.id;
      } in
      let (c, m, h) = >>=-eq-ok (encode_cycle_cursor codec goal k) _ h in
      let n : some c ≡ next = cc in
      subst (λ (x : Option Text). NextOpens x limit rows goal) n
        (last, e, decode-encode_cycle_cursor goal k q p m)

  -- A page of `rows`, which the query answered: the first rows, at most `limit` of them.
  pub record IsPage (limit : ℕ) (goal : String) (rows : List CycleSummary) (page : CyclePage)
      : Type 0 where
    pub items : page.items ≡ take limit rows
    pub short : length page.items ≤ limit
    pub sorted : IsDescending page.items
    pub next : NextOpens page.next_cursor limit rows goal

pub take-All : {A : Type 0} (P : A → Type 0) (n : ℕ) (xs : List A) → All P xs → All P (take n xs)
take-All P zero xs h = tt
take-All P (suc n) [] h = tt
take-All P (suc n) (x ∷ xs) (h, hs) = (h, take-All P n xs hs)

take-IsDescending :
    (n : ℕ) (rows : List CycleSummary) → IsDescending rows → IsDescending (take n rows)
unfolding IsDescending
take-IsDescending zero rows h = tt
take-IsDescending (suc n) [] h = tt
take-IsDescending (suc n) (r ∷ rows) (h, hs) =
    (take-All (Follows r) n rows h, take-IsDescending n rows hs)

pub length-take-le : {A : Type 0} (n : ℕ) (xs : List A) → length (take n xs) ≤ n
length-take-le zero xs = omega arith
length-take-le (suc n) [] = omega arith
length-take-le (suc n) (x ∷ xs) = omega (arith, length-take-le n xs)

pub page_limit-le : (limit : ℤ) → page_limit limit ≤ 50
unfolding page_limit
page_limit-le (pos zero) = omega arith
page_limit-le (pos (suc n)) = ground arith
page_limit-le (negsuc n) = omega arith

pub take_all : {A : Type 0} (n : ℕ) (xs : List A) → length xs ≤ n → take n xs ≡ xs
take_all zero [] h = refl
take_all zero (x ∷ xs) h = ground arith
take_all (suc n) [] h = refl
take_all (suc n) (x ∷ xs) h = ap (λ (ys : List _). x ∷ ys) (take_all n xs (omega (arith, h)))

module _ (codec : CursorCodec CycleCursorPayload) (codes_well : IsCodec codec) where
  page_of-IsPage :
      (rows : List CycleSummary) (limit : ℕ) (goal : String) {page : CyclePage}
      → IsDescending rows
      → All IsNamed rows
      → page_of codec rows limit goal ≡ ok page
      → IsPage codec codes_well limit goal rows page
  unfolding page_of NextOpens
  page_of-IsPage rows limit goal {page} sorted named h =
      let found = get_elem? rows (limit - 1) in
      elim (choose (ltb limit (length rows))
        (cursor_after codec found goal >>= λ next.
          ok (record { items = take limit rows; next_cursor = next }))
        (ok (record { items = rows; next_cursor = none })) h) [
          | inl (q, h) ↦
              let (next, m, h) = >>=-eq-ok (cursor_after codec found goal) _ h in
              same_value (IsPage codec codes_well limit goal rows) h (record {
                items = refl;
                short = length-take-le limit rows;
                sorted = take-IsDescending limit rows sorted;
                next = cursor_after-NextOpens codec codes_well found limit rows goal refl named m;
              })
          | inr (q, h) ↦
              let short : length rows ≤ limit = ground (arith, q) in
              same_value (IsPage codec codes_well limit goal rows) h (record {
                items = sym (take_all limit rows short);
                short = short;
                sorted = sorted;
                next = short;
              })
        ]

  -- A page of cycles holds the first rows that the query answered, at most 50, each strictly after
  -- the ones before it; its cursor opens to its last row, and without a cursor no row is left.
  pub list_cycles-IsPage :
      (query : CycleListQuery → Result AppError (List CycleSummary)) (user goal : String)
      (cursor : Text) (limit : ℤ) {page : CyclePage}
      → list_cycles codec query user goal cursor limit ≡ ok page
      → (after : Option CycleListKeyset) × (rows : List CycleSummary) × (query (record {
        user_id = user;
        goal_id = goal;
        after = after;
        fetch_limit = page_limit limit + 1;
      })
          ≡ ok rows)
        × (page_limit limit ≤ 50)
        × IsPage codec codes_well (page_limit limit) goal rows page
  unfolding list_cycles
  list_cycles-IsPage query user goal cursor limit h =
      let (after, a, h) = >>=-eq-ok (decode_cycle_cursor codec cursor goal) _ h in
      let (rows, b, h) =
        >>=-eq-ok
          (query (record {
            user_id = user;
            goal_id = goal;
            after = after;
            fetch_limit = page_limit limit + 1;
          }))
          _ h in
      let (u, c, h) =
        >>=-eq-ok
          (fail_if (ltb (page_limit limit + 1) (length rows))
            (cycle_invariant "Cycle query returned more rows than requested"))
          _ h in
      let (u', valid, h) = >>=-eq-ok (validate_cycle_summaries rows) _ h in
      let (sorted, named) = validate_cycle_summaries-IsDescending rows valid in
      (
        after,
        rows,
        b,
        page_limit-le limit,
        page_of-IsPage rows (page_limit limit) goal sorted named h,
      )
