-- ===== src/Widget.antt =====
-- widgets-term/Widget.h and Widget.cpp: the base class of the widgets, and the text helper
-- `strPadCutTo`, which stands in LibDspc.cpp with the same body. Texts are lists of bytes or of
-- code points. The names `mName`, `mLabel` and `mTag`, which no code reads, are left out.
pub mod Padding
pub mod Tests
use processing_common.Common.{
  ℕ, ◌-◌, Bool, true, false, not, ◌&&◌, ltb, leb, if◌then◌else◌, List, [], ◌∷◌, ◌++◌, Option, none,
  some, length, take, replicate,
}
use processing_common.KeyUser.Utf8.{str_to_utf, utf_to_str}

pub record Widget : Type 0 where
  pub focus : Bool
  pub current : List ℕ
  pub work : List ℕ
  pub modifier_frame : List ℕ
  pub modifier_content : List ℕ
  pub modifier_selection : List ℕ

-- "\033[48;5;99m"
abbrev default_selection : List ℕ
default_selection = 27 ∷ b'[' ∷ b'4' ∷ b'8' ∷ b';' ∷ b'5' ∷ b';' ∷ b'9' ∷ b'9' ∷ b'm' ∷ []

unfoldable pub new : Widget
new = record {
  focus = false;
  current = [];
  work = [];
  modifier_frame = [];
  modifier_content = [];
  modifier_selection = default_selection;
}

unfoldable pub focus_set : Widget → Bool → Bool → Widget
focus_set w foc accept =
    let w₁ = if foc then record w { work = w.current } else w in
    let w₂ = if not foc && accept then record w₁ { current = w₁.work } else w₁ in
    record w₂ { focus = foc }

-- currentSet, and the assignment of a text
unfoldable pub current_set : Widget → List ℕ → Widget
current_set w str = record w { current = str }

unfoldable pub modifier_frame_set : Widget → List ℕ → Widget
modifier_frame_set w str = record w { modifier_frame = str }

unfoldable pub modifier_content_set : Widget → List ℕ → Widget
modifier_content_set w str = record w { modifier_content = str }

unfoldable pub modifier_selection_set : Widget → List ℕ → Widget
modifier_selection_set w str = record w { modifier_selection = str }

-- The code points between the two conversions of `strPadCutTo`; the `pop_back`s of the dots are a
-- cut by two.
unfoldable pub pad_cut : List ℕ → ℕ → Bool → Bool → List ℕ
pad_cut ustr width dots pad_left =
    let sz = length ustr in
    let fitted =
      if ltb width sz
      then take width ustr
      else if ltb sz width
      then (if pad_left
          then replicate (width - sz) b' ' ++ ustr
          else ustr ++ replicate (width - sz) b' ')
      else ustr in
    if ltb width sz && leb 2 width && dots
    then take (length fitted - 2) fitted ++ (b'.' ∷ b'.' ∷ [])
    else fitted

-- `none` is the exception of a text that is not UTF-8.
unfoldable pub str_pad_cut_to : List ℕ → ℕ → Bool → Bool → Option (List ℕ)
unfolding pad_cut
str_pad_cut_to str width dots pad_left = elim (str_to_utf str) [
  | none ↦ none
  | some ustr ↦ utf_to_str (pad_cut ustr width dots pad_left)
]
