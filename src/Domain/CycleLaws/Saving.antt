-- ===== src/Domain/CycleLaws/Saving.antt =====
-- Saving a frame: what is written, what is refused, and what a repeated request does.
use cycle.Base.{
  ℤ, ◌≡◌, ◌≢◌, Bool, true, false, Text, ok, err, arith, inc64, text_eq_iff, text_eq_refl,
  int_eq_iff, inc64-ne, refl, ◌&&◌,
}
use cycle.Domain.Cycle.{
  PdcaCycle, Frame, Time, SaveFrameResult, frame_content, frame_revision, save_frame,
  normalize_and_validate_text, revision_conflict, frame_eq, is_active, is_action,
}

-- One frame of `c` was given the text of `r` under the revision `e`; all else is as it was.
pub record Saved (c : PdcaCycle) (f : Frame) (e : ℤ) (t : Time) (r : SaveFrameResult) : Type 0 where
  pub known : frame_eq f f ≡ true
  pub current : frame_revision c f ≡ e
  pub new_text : frame_content r.saved f ≡ r.content
  pub differs : frame_content c f ≢ r.content
  pub revision : frame_revision r.saved f ≡ inc64 (frame_revision c f)
  pub content_revision : r.saved.revisions.content ≡ inc64 c.revisions.content
  pub other_texts : (g : Frame) → frame_eq f g ≡ false → frame_content r.saved g ≡ frame_content c g
  pub other_revisions :
      (g : Frame) → frame_eq f g ≡ false → frame_revision r.saved g ≡ frame_revision c g
  pub status : r.saved.status ≡ c.status
  pub schedule : r.saved.review_date ≡ c.review_date
  pub schedule_revision : r.saved.review_schedule_revision ≡ c.review_schedule_revision
  pub updated : r.saved.updated_at ≡ t

not_blocked :
    (f : Frame) (running : Bool)
    → ((f ≡ Frame.action) → running ≡ false)
    → (running && is_action f) ≡ false
not_blocked Frame.plan true h = refl
not_blocked Frame.do_ true h = refl
not_blocked Frame.check true h = refl
not_blocked Frame.action true h = h refl
not_blocked Frame.unknown true h = refl
not_blocked f false h = refl

module _ (c : PdcaCycle) (f : Frame) (s : Text) (e : ℤ) (running : Bool) (t : Time)
    {r : SaveFrameResult} (saved : save_frame c f s e running t ≡ ok r) where
  pub save_frame-text : (is_active c.status ≡ true) × (normalize_and_validate_text s ≡ ok r.content)
  unfolding save_frame
  save_frame-text = ground arith

  pub save_frame-no_op : r.no_op ≡ true → (r.saved ≡ c) × (frame_content c f ≡ r.content)
  unfolding save_frame
  save_frame-no_op h = ground (arith, text_eq_iff (frame_content c f) r.content)

  -- A frame that was saved and changed has the new text under the next frame and content revisions,
  -- was at the expected revision, and every other frame is as it was.
  pub save_frame-Saved : r.no_op ≡ false → Saved c f e t r
  unfolding save_frame
  save_frame-Saved h = record {
    known = ground arith;
    current = ground (arith, int_eq_iff (frame_revision c f) e);
    new_text = ground arith;
    differs = ground (arith, text_eq_iff (frame_content c f) r.content);
    revision = ground arith;
    content_revision = ground arith;
    other_texts = λ g n. ground arith;
    other_revisions = λ g n. ground arith;
    status = ground arith;
    schedule = ground arith;
    schedule_revision = ground arith;
    updated = ground arith;
  }

  -- A request that was saved and is sent again changes nothing, whatever revision it expects.
  pub save_frame_again :
      (e' : ℤ) (t' : Time)
      → save_frame r.saved f s e' false t'
        ≡ ok (record {
          saved = r.saved;
          frame = f;
          content = r.content;
          no_op = true;
          saved_at = r.saved.updated_at;
        })
  unfolding save_frame
  save_frame_again e' t' =
      ground (arith, text_eq_iff (frame_content c f) r.content, text_eq_refl r.content)

  -- Whoever read the frame before this change and sends another valid text is refused with a
  -- revision conflict, unless the frame is the action and an AI operation runs on it.
  pub save_frame_conflict :
      (s' u : Text) (running' : Bool) (t' : Time)
      → ((f ≡ Frame.action) → running' ≡ false)
      → r.no_op ≡ false
      → normalize_and_validate_text s' ≡ ok u
      → u ≢ r.content
      → save_frame r.saved f s' e running' t' ≡ err revision_conflict
  unfolding save_frame
  save_frame_conflict s' u running' t' idle changed valid other = ground (
    arith,
    not_blocked f running' idle,
    text_eq_iff r.content u,
    int_eq_iff (frame_revision c f) e,
    inc64-ne (frame_revision c f),
  )
