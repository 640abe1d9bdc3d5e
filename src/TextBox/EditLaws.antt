-- ===== src/TextBox/EditLaws.antt =====
-- What the keys that edit the text do to a text box that has the focus.
use processing_common.Common.{
  ℕ, ◌+◌, ◌-◌, ◌≡◌, inl, inr, arith, true, false, leb, ◌&&◌, ◌||◌, List, [], ◌∷◌, ◌++◌, take, drop,
  some, length, Bool-cases, ◌∙◌,
}
use processing_common.KeyUser.{KeyUser, lt_char, gt_char}
use processing_common.KeyUser.Utf8.{is_scalar, utf8, str_to_utf}
use processing_common.KeyUser.Utf8.Roundtrip.{
  AllScalar, AllScalar-append, AllScalar-take, AllScalar-drop, str_to_utf-utf_to_str,
}
use native.Mathlib.Decide.{dec_lt}
use processing_common.TextBox.{TextBox, dirty_set}
use processing_common.TextBox.Consistent.{IsOver-cursor}
use processing_common.TextBox.Keys.{is_selection, backspace_key, delete_key, print_key, edit_key}
use processing_common.TextBox.Typing.{
  place, Accepts, print_key_lem, backspace_key_lem, backspace_key_start, delete_key_lem,
  delete_key_end,
}
use processing_common.TextBox.Ready.{
  IsReady, Leads, Leads-if, IsReady-flags, replaced-IsReady, nothing, remove_selection-Leads,
}

backspace_key-Leads : (t : TextBox) → IsReady t → Leads (backspace_key t)
backspace_key-Leads t r = elim (Bool-cases (is_selection t)) [
  | inl sel ↦
      let (t', taken, e, r') = remove_selection-Leads t r in
      (t', taken, unfold backspace_key in rw sel e, r')
  | inr none_sel ↦ elim (dec_lt 0 (place t)) [
    | yes h ↦
        let (t', e, c, work, _, _, foc) = backspace_key_lem t r.consistent none_sel h in
        (
          t',
          true,
          e,
          record {
            consistent = c;
            unicode = rw work (
                AllScalar-append (take (place t - 1) t.ustr_work) (drop (place t) t.ustr_work)
                  (AllScalar-take (place t - 1) t.ustr_work r.unicode)
                  (AllScalar-drop (place t) t.ustr_work r.unicode));
            focused = foc ∙ r.focused;
          },
        )
    | no h ↦ (t, false, backspace_key_start t r.consistent none_sel (omega arith), r)
  ]
]

delete_key-Leads : (t : TextBox) → IsReady t → Leads (delete_key t)
delete_key-Leads t r = elim (Bool-cases (is_selection t)) [
  | inl sel ↦
      let (t', taken, e, r') = remove_selection-Leads t r in
      (t', taken, unfold delete_key in rw sel e, r')
  | inr none_sel ↦ elim (dec_lt (place t) (length t.ustr_work)) [
    | yes h ↦
        let (t', e, c, work, _, _, foc) = delete_key_lem t r.consistent none_sel h in
        (
          t',
          true,
          e,
          record {
            consistent = c;
            unicode = rw work (
                AllScalar-append (take (place t) t.ustr_work) (drop (place t + 1) t.ustr_work)
                  (AllScalar-take (place t) t.ustr_work r.unicode)
                  (AllScalar-drop (place t + 1) t.ustr_work r.unicode));
            focused = foc ∙ r.focused;
          },
        )
    | no h ↦ (
      t,
      false,
      delete_key_end t r.consistent none_sel
          (omega (arith, IsOver-cursor (length t.ustr_work) t.front r.consistent.front_over)),
      r,
    )
  ]
]

utf8_lem :
    (key : KeyUser)
    → key.is_print ≡ true
    → is_scalar key.print ≡ true
    → (str ustr : List ℕ) × (utf8 key ≡ some str) × (str_to_utf str ≡ some ustr) × AllScalar ustr
unfolding utf8
utf8_lem key p h = elim (Bool-cases key.is_ctrl) [
  | inl ctrl ↦ ([], [], rw ctrl, nothing, tt)
  | inr plain ↦
      let (str, wrote, reads) = str_to_utf-utf_to_str (key.print ∷ []) (h, tt) in
      (str, key.print ∷ [], rw plain wrote, reads, (h, tt))
]

replace_key-Leads :
    (t : TextBox) (key : KeyUser)
    → IsReady t
    → Accepts t key
    → is_scalar key.print ≡ true
    → is_selection t ≡ true
    → Leads (print_key t key)
unfolding print_key dirty_set
replace_key-Leads t key r allowed h sel =
    let (str, ustr, wrote, reads, u) = utf8_lem key allowed.0 h in
    let (t', e, r') = replaced-IsReady t str ustr r reads u in
    (
      record t' { dirty = true },
      true,
      simp (allowed.0, allowed.1, sel, wrote, e),
      IsReady-flags t' t'.clipboard true r',
    )

insert_key-Leads :
    (t : TextBox) (key : KeyUser)
    → IsReady t
    → Accepts t key
    → is_scalar key.print ≡ true
    → is_selection t ≡ false
    → Leads (print_key t key)
insert_key-Leads t key r allowed h none_sel = elim (dec_lt (length t.ustr_work) t.len_max) [
  | yes room ↦
      let (t', e, c, work, _, _, foc) = print_key_lem t key r.consistent allowed none_sel room in
      (
        t',
        true,
        e,
        record {
          consistent = c;
          unicode = rw work (
              AllScalar-append (take (place t) t.ustr_work)
                ((key.print ∷ []) ++ drop (place t) t.ustr_work)
                (AllScalar-take (place t) t.ustr_work r.unicode)
                (h, AllScalar-drop (place t) t.ustr_work r.unicode));
          focused = foc ∙ r.focused;
        },
      )
  | no full ↦
      let is_full : leb t.len_max (length t.ustr_work) ≡ true = ground arith in
      (t, false, unfold print_key in simp (allowed.0, allowed.1, none_sel, is_full), r)
]

print_key-Leads :
    (t : TextBox) (key : KeyUser)
    → IsReady t
    → (key.is_print ≡ true → is_scalar key.print ≡ true)
    → Leads (print_key t key)
print_key-Leads t key r h = elim (Bool-cases key.is_print) [
  | inr ctrl ↦ (t, false, unfold print_key in rw ctrl, r)
  | inl p ↦ elim (Bool-cases (t.numbers_only && (lt_char key b'0' || gt_char key b'9'))) [
    | inl refused ↦ (t, false, unfold print_key in simp (p, refused), r)
    | inr fine ↦ elim (Bool-cases (is_selection t)) [
      | inl sel ↦ replace_key-Leads t key r (p, fine) (h p) sel
      | inr none_sel ↦ insert_key-Leads t key r (p, fine) (h p) none_sel
    ]
  ]
]

pub edit_key-Leads :
    (t : TextBox) (key : KeyUser)
    → IsReady t
    → (key.is_print ≡ true → is_scalar key.print ≡ true)
    → Leads (edit_key t key)
unfolding edit_key
edit_key-Leads t key r h =
    Leads-if _ _ _ (backspace_key-Leads t r)
      (Leads-if _ _ _ (delete_key-Leads t r) (print_key-Leads t key r h))
