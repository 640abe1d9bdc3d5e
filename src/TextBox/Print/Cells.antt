-- ===== src/TextBox/Print/Cells.antt =====
-- What a text box shows.
use processing_common.Common.{
  ℕ, zero, suc, ◌+◌, ◌-◌, ◌*◌, ◌≤◌, ◌≡◌, ◌∙◌, refl, sym, ap, subst, arith, Bool, true, false, not,
  ◌&&◌, ◌||◌, ltb, leb, ◌==◌, if◌then◌else◌, List, [], ◌∷◌, ◌++◌, length, length-append, get_or,
  Bool-cases, inl, inr,
}
use processing_common.ListIdx
use processing_common.TextBox.{TextBox, idx_low, idx_high}
use processing_common.TextBox.Print.{
  Piece, style, cell, text_in, char_at, styles_before, styles_behind, selection_print, cursor_print,
  cell_print, cells_print, pieces,
}

pub cells : List Piece → List ℕ
cells [] = []
cells (style str ∷ rest) = cells rest
cells (cell ch ∷ rest) = ch ∷ cells rest

cells-append : (ps qs : List Piece) → cells (ps ++ qs) ≡ cells ps ++ cells qs
unfolding cells
cells-append [] qs = refl
cells-append (style str ∷ ps) qs = cells-append ps qs
cells-append (cell ch ∷ ps) qs = ap (λ l. ch ∷ l) (cells-append ps qs)

three_styles :
    (b₁ b₂ b₃ : Bool) (u v w x : List ℕ)
    → cells (
        (if b₁ then style u ∷ [] else [])
        ++ ((if b₂ then style v ∷ style w ∷ [] else []) ++ (if b₃ then style x ∷ [] else [])))
      ≡ []
unfolding cells
three_styles true true true u v w x = refl
three_styles true true false u v w x = refl
three_styles true false true u v w x = refl
three_styles true false false u v w x = refl
three_styles false true true u v w x = refl
three_styles false true false u v w x = refl
three_styles false false true u v w x = refl
three_styles false false false u v w x = refl

two_styles : (b : Bool) (u v : List ℕ) → cells (if b then style u ∷ style v ∷ [] else []) ≡ []
unfolding cells
two_styles true u v = refl
two_styles false u v = refl

cells-styles_before : (t : TextBox) (idx_abs : ℕ) → cells (styles_before t idx_abs) ≡ []
unfolding styles_before
cells-styles_before t idx_abs =
    three_styles (selection_print t && (idx_abs == ListIdx.cursor_abs (idx_low t)))
      (selection_print t && (idx_abs == ListIdx.cursor_abs (idx_high t))) (cursor_print t idx_abs) _
      _ _ _

cells-styles_behind : (t : TextBox) (idx_abs : ℕ) → cells (styles_behind t idx_abs) ≡ []
unfolding styles_behind
cells-styles_behind t idx_abs = two_styles (cursor_print t idx_abs) _ _

-- What one round shows.
abbrev shown : TextBox → List ℕ → ℕ → ℕ → ℕ
shown t str idx_rel idx_abs =
    if (idx_rel == 0) && not (t.front.offset == 0)
    then 0xab
    else if (idx_rel == t.front.win - 1) && not (ListIdx.end_reached t.front)
    then 0xbb
    else char_at t str idx_abs

cells-styled :
    (t : TextBox) (ch idx_abs : ℕ)
    → cells (styles_before t idx_abs ++ (cell ch ∷ styles_behind t idx_abs)) ≡ ch ∷ []
unfolding cells
cells-styled t ch idx_abs =
    cells-append (styles_before t idx_abs) (cell ch ∷ styles_behind t idx_abs)
    ∙ ap (λ l. l ++ (ch ∷ cells (styles_behind t idx_abs))) (cells-styles_before t idx_abs)
    ∙ ap (λ l. ch ∷ l) (cells-styles_behind t idx_abs)

choice_lem :
    (b b' : Bool) (x y ch : ℕ) (ps : List Piece)
    → cells ps ≡ ch ∷ []
    → cells (if b then cell x ∷ [] else if b' then cell y ∷ [] else ps)
      ≡ (if b then x else if b' then y else ch) ∷ []
unfolding cells
choice_lem true b' x y ch ps h = refl
choice_lem false true x y ch ps h = refl
choice_lem false false x y ch ps h = h

cells-cell_print :
    (t : TextBox) (str : List ℕ) (idx_rel idx_abs : ℕ)
    → cells (cell_print t str idx_rel idx_abs) ≡ shown t str idx_rel idx_abs ∷ []
unfolding cell_print
cells-cell_print t str idx_rel idx_abs =
    choice_lem ((idx_rel == 0) && not (t.front.offset == 0))
      ((idx_rel == t.front.win - 1) && not (ListIdx.end_reached t.front)) 0xab 0xbb
      (char_at t str idx_abs) _ (cells-styled t (char_at t str idx_abs) idx_abs)

cells-cells_print :
    (t : TextBox) (str : List ℕ) (rounds idx_rel idx_abs : ℕ)
    → cells (cells_print t str (suc rounds) idx_rel idx_abs)
      ≡ shown t str idx_rel idx_abs ∷ cells (cells_print t str rounds (idx_rel + 1) (idx_abs + 1))
unfolding cells_print
cells-cells_print t str rounds idx_rel idx_abs =
    cells-append (cell_print t str idx_rel idx_abs)
      (cells_print t str rounds (idx_rel + 1) (idx_abs + 1))
    ∙ ap (λ l. l ++ cells (cells_print t str rounds (idx_rel + 1) (idx_abs + 1)))
        (cells-cell_print t str idx_rel idx_abs)

cells-none :
    (t : TextBox) (str : List ℕ) (idx_rel idx_abs : ℕ)
    → cells (cells_print t str zero idx_rel idx_abs) ≡ []
unfolding cells cells_print
cells-none t str idx_rel idx_abs = refl

length-cells_print :
    (t : TextBox) (str : List ℕ) (rounds idx_rel idx_abs : ℕ)
    → length (cells (cells_print t str rounds idx_rel idx_abs)) ≡ rounds
length-cells_print t str zero idx_rel idx_abs = ap length (cells-none t str idx_rel idx_abs)
length-cells_print t str (suc rounds) idx_rel idx_abs =
    ap length (cells-cells_print t str rounds idx_rel idx_abs)
    ∙ ap suc (length-cells_print t str rounds (idx_rel + 1) (idx_abs + 1))

abbrev pub count_of : Bool → ℕ
count_of b = if b then 1 else 0

content_size :
    (content rest : List Piece) (k : ℕ)
    → length (cells rest) ≡ k
    → length (cells (content ++ rest)) ≡ length (cells content) + k
content_size content rest k h =
    ap length (cells-append content rest)
    ∙ length-append (cells content) (cells rest)
    ∙ ap (λ n. length (cells content) + n) h

framed_lem :
    (frame padding : Bool) (l r : ℕ) (u v w x y z : List ℕ) (content : List Piece)
    → length (
        cells (
          (style u
            ∷ ((if frame then cell l ∷ [] else [])
                ++ ((if padding then cell b' ' ∷ [] else []) ++ (style v ∷ []))))
          ++ (style w
              ∷ (content
                  ++ (style x
                      ∷ style y
                      ∷ ((if padding then cell b' ' ∷ [] else [])
                          ++ ((if frame then cell r ∷ [] else []) ++ (style z ∷ []))))))))
      ≡ length (cells content) + 2 * count_of frame + 2 * count_of padding
unfolding cells
framed_lem true true l r u v w x y z content =
    omega
      (arith, content_size content (style x ∷ style y ∷ cell b' ' ∷ cell r ∷ style z ∷ []) 2 refl)
framed_lem true false l r u v w x y z content =
    omega (arith, content_size content (style x ∷ style y ∷ cell r ∷ style z ∷ []) 1 refl)
framed_lem false true l r u v w x y z content =
    omega (arith, content_size content (style x ∷ style y ∷ cell b' ' ∷ style z ∷ []) 1 refl)
framed_lem false false l r u v w x y z content =
    omega (arith, content_size content (style x ∷ style y ∷ style z ∷ []) 0 refl)

-- `print` draws as many cells as the window has, and two more each for the frame and for the
-- padding where these are on; the styles and the cursor take no cells.
pub length-pieces :
    (t : TextBox)
    → length (cells (pieces t))
      ≡ t.front.win + 2 * count_of t.frame_enabled + 2 * count_of t.padding_enabled
unfolding pieces
length-pieces t =
    framed_lem t.frame_enabled t.padding_enabled _ _ _ _ _ _ _ _
      (cells_print t (text_in t) t.front.win 0 t.front.offset)
    ∙ ap (λ n. n + 2 * count_of t.frame_enabled + 2 * count_of t.padding_enabled)
        (length-cells_print t (text_in t) t.front.win 0 t.front.offset)

-- A space, an asterisk or one of the marks at the ends of the window.
pub is_mask : ℕ → Bool
is_mask ch = (ch == b' ') || ((ch == b'*') || ((ch == 0xab) || (ch == 0xbb)))

abbrev pub AllMask : List ℕ → Type 0
AllMask [] = Unit {0}
AllMask (ch ∷ chs) = (is_mask ch ≡ true) × AllMask chs

get_or-end : (str : List ℕ) (i : ℕ) → length str ≤ i → get_or (str ++ (b' ' ∷ [])) i b' ' ≡ b' '
get_or-end [] zero h = refl
get_or-end [] (suc i) h = refl
get_or-end (c ∷ str) zero h = absurd (omega arith)
get_or-end (c ∷ str) (suc i) h = get_or-end str i (omega arith)

char_at-masked :
    (t : TextBox) (str : List ℕ) (idx_abs : ℕ)
    → t.password_mode ≡ true
    → is_mask (char_at t (str ++ (b' ' ∷ [])) idx_abs) ≡ true
unfolding char_at is_mask
char_at-masked t str idx_abs secret =
    elim (Bool-cases (leb (length (str ++ (b' ' ∷ []))) idx_abs)) [
      | inl over ↦ simp over
      | inr inside ↦ elim (Bool-cases (ltb idx_abs (length (str ++ (b' ' ∷ [])) - 1))) [
        | inl letter ↦ simp (inside, secret, letter)
        | inr last ↦
            let behind : length str ≤ idx_abs = ground (arith, length-append str (b' ' ∷ [])) in
            simp (inside, secret, last, get_or-end str idx_abs behind)
      ]
    ]

shown_lem :
    (b b' : Bool) (ch : ℕ)
    → is_mask ch ≡ true
    → is_mask (if b then 0xab else if b' then 0xbb else ch) ≡ true
unfolding is_mask
shown_lem true b' ch h = refl
shown_lem false true ch h = refl
shown_lem false false ch h = h

cells_print-AllMask :
    (t : TextBox) (str : List ℕ) (rounds idx_rel idx_abs : ℕ)
    → t.password_mode ≡ true
    → AllMask (cells (cells_print t (str ++ (b' ' ∷ [])) rounds idx_rel idx_abs))
cells_print-AllMask t str zero idx_rel idx_abs secret =
    subst AllMask (sym (cells-none t (str ++ (b' ' ∷ [])) idx_rel idx_abs)) tt
cells_print-AllMask t str (suc rounds) idx_rel idx_abs secret =
    subst AllMask (sym (cells-cells_print t (str ++ (b' ' ∷ [])) rounds idx_rel idx_abs)) (
      shown_lem ((idx_rel == 0) && not (t.front.offset == 0))
          ((idx_rel == t.front.win - 1) && not (ListIdx.end_reached t.front))
          (char_at t (str ++ (b' ' ∷ [])) idx_abs) (char_at-masked t str idx_abs secret),
      cells_print-AllMask t str rounds (idx_rel + 1) (idx_abs + 1) secret,
    )

-- In password mode, `print` shows nothing of the text between the frames: each cell is a space, an
-- asterisk or one of the marks at the ends of the window.
pub password-AllMask :
    (t : TextBox)
    → t.password_mode ≡ true
    → AllMask (cells (cells_print t (text_in t) t.front.win 0 t.front.offset))
unfolding text_in
password-AllMask t secret =
    cells_print-AllMask t (if t.focus then t.ustr_work else t.ustr_current) t.front.win 0
      t.front.offset secret
