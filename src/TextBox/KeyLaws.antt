-- ===== src/TextBox/KeyLaws.antt =====
-- What `keyProcess` does to a text box that has the focus, for every key.
use processing_common.Common.{◌≡◌, refl, Bool, true, false, [], some, length, ◌∙◌}
use processing_common.KeyUser.{KeyUser}
use processing_common.KeyUser.Utf8.{is_scalar}
use processing_common.ListIdx.{ListIdx}
use processing_common.ListIdx
use processing_common.ListIdx.Bounds.{reset-IsValid, cursor_end_set-IsValid}
use processing_common.ListIdx.Keys.{reset-Keeps, cursor_end_set-Keeps}
use processing_common.TextBox.{TextBox, ◌>>=◌, dirty_set, clipboard_set}
use processing_common.TextBox.Consistent.{Keeps-IsOver}
use processing_common.TextBox.Jump.Moves.{navigate-IsMoved}
use processing_common.TextBox.Keys.{cut_key, select_all_key, edit_key, focused_key, key_process}
use processing_common.TextBox.Ready.{
  IsReady, Leads, Leads-if, IsReady-flags, clipboard_set_lem, replaced-IsReady, nothing,
}
use processing_common.TextBox.EditLaws.{edit_key-Leads}

focused_key-Leads :
    (t : TextBox) (key : KeyUser)
    → IsReady t
    → (key.is_print ≡ true → is_scalar key.print ≡ true)
    → Leads (focused_key t key)
unfolding focused_key dirty_set
focused_key-Leads t key r h =
    let (t', changed, e, m) = navigate-IsMoved t key r.consistent in
    let r' : IsReady t' = record {
      consistent = m.consistent;
      unicode = rw m.same_work r.unicode;
      focused = m.same_focus ∙ r.focused;
    } in
    let edit = edit_key-Leads t' key r' h in
    rw e (
      Leads-if changed (some (record t' { dirty = true }, true)) (edit_key t' key)
        (record t' { dirty = true }, true, refl, IsReady-flags t' t'.clipboard true r') edit)

cut_key-Leads : (t : TextBox) → IsReady t → Leads (cut_key t)
unfolding cut_key dirty_set
cut_key-Leads t r =
    let (clip, copied) = clipboard_set_lem t r in
    let t₁ : TextBox = record t { clipboard = clip } in
    let (t', e, r') = replaced-IsReady t₁ [] [] (IsReady-flags t clip t.dirty r) nothing tt in
    (
      record t' { dirty = true },
      true,
      simp (copied, r.focused, e),
      IsReady-flags t' t'.clipboard true r',
    )

select_all_key-Leads : (t : TextBox) → IsReady t → Leads (select_all_key t)
unfolding select_all_key
select_all_key-Leads t r =
    let c = r.consistent in
    let n = length t.ustr_work in
    let f = t.front in
    let b = t.back in
    (
      _,
      true,
      refl,
      record {
        consistent = record {
          front_over =
              Keeps-IsOver n f (ListIdx.cursor_end_set f).0 c.front_over (cursor_end_set-Keeps f)
                (cursor_end_set-IsValid f c.front_over.valid);
          back_over =
              Keeps-IsOver n b (ListIdx.reset b).0 c.back_over (reset-Keeps b)
                (reset-IsValid b c.back_over.valid);
          fits = c.fits;
          small = c.small;
        };
        unicode = r.unicode;
        focused = r.focused;
      },
    )

copy_key-Leads : (t : TextBox) → IsReady t → Leads (do t' ← clipboard_set t; some (t', true))
copy_key-Leads t r =
    let (clip, copied) = clipboard_set_lem t r in
    (record t { clipboard = clip }, true, rw copied, IsReady-flags t clip t.dirty r)

-- In a text box that has the focus and is ready, every key that is no invalid code point is handled
-- without an exception and without an endless loop, and the text box is ready again.
pub key_process-IsReady :
    (t : TextBox) (key : KeyUser)
    → IsReady t
    → (key.is_print ≡ true → is_scalar key.print ≡ true)
    → (t' : TextBox) × (taken : Bool) × (key_process t key ≡ some (t', taken)) × IsReady t'
unfolding key_process
key_process-IsReady t key r h =
    let t₀ : TextBox = record t { dirty = false } in
    let r₀ : IsReady t₀ = IsReady-flags t t.clipboard false r in
    Leads-if _ _ _ (cut_key-Leads t₀ r₀) (
      Leads-if _ _ _ (copy_key-Leads t₀ r₀) (
        Leads-if _ (some (t₀, false)) _ (t₀, false, refl, r₀)
          (Leads-if _ _ _ (select_all_key-Leads t₀ r₀) (focused_key-Leads t₀ key r₀ h))))
