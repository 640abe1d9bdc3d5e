-- ===== src/Widget/Padding.antt =====
-- What `strPadCutTo` makes of a text.
use processing_common.Common.{
  ℕ, zero, suc, ◌-◌, ◌<◌, ◌≤◌, ◌≡◌, refl, arith, Bool, true, false, ltb, leb, if◌then◌else◌, List,
  [], ◌∷◌, ◌++◌, length, take, drop, replicate, length-append, length-take, length-replicate,
  take_of_length-le, ◌&&◌, take-append_of_eq, drop-append_of_eq, some,
}
use processing_common.KeyUser.Utf8.{is_scalar, str_to_utf, utf_to_str}
use processing_common.KeyUser.Utf8.Roundtrip.{
  AllScalar, AllScalar-append, AllScalar-take, AllScalar-replicate, str_to_utf-utf_to_str,
}
use processing_common.Widget.{pad_cut, str_pad_cut_to}

-- The result is `width` code points long, whatever the text and the options.
pub length-pad_cut :
    (ustr : List ℕ) (width : ℕ) (dots pad_left : Bool)
    → length (pad_cut ustr width dots pad_left) ≡ width
unfolding pad_cut
length-pad_cut ustr width dots pad_left =
    let cut : List ℕ = take width ustr in
    let fill : List ℕ = replicate (width - length ustr) b' ' in
    ground (
      arith,
      length-take width ustr,
      length-append fill ustr,
      length-append ustr fill,
      length-replicate {A = ℕ} (width - length ustr) b' ',
      length-append (take (length cut - 2) cut) (b'.' ∷ b'.' ∷ []),
      length-take (length cut - 2) cut,
    )

take-take : (m n : ℕ) (xs : List ℕ) → m ≤ n → take m (take n xs) ≡ take m xs
take-take zero n xs h = refl
take-take (suc m) zero xs h = absurd (omega arith)
take-take (suc m) (suc n) [] h = refl
take-take (suc m) (suc n) (x ∷ xs) h = rw (take-take m n xs (omega arith))

-- A text that is no longer than the width stands whole in the result of `strPadCutTo`: at its right
-- end if it is padded on the left, and else at its left end.
pub pad_cut_fits :
    (ustr : List ℕ) (width : ℕ) (dots pad_left : Bool)
    → length ustr ≤ width
    → (if pad_left
        then drop (width - length ustr) (pad_cut ustr width dots pad_left)
        else take (length ustr) (pad_cut ustr width dots pad_left))
      ≡ ustr
unfolding pad_cut
pad_cut_fits ustr width dots pad_left h =
    let fill : List ℕ = replicate (width - length ustr) b' ' in
    ground (
      arith,
      drop-append_of_eq (width - length ustr) fill ustr,
      take-append_of_eq (length ustr) ustr fill,
      length-replicate {A = ℕ} (width - length ustr) b' ',
      take_of_length-le (length ustr) ustr,
    )

-- A text that is too long keeps its first characters: all but two of `width` if two dots mark the
-- cut, which takes a width of at least two, and else all of them.
pub pad_cut_cuts :
    (ustr : List ℕ) (width : ℕ) (dots pad_left : Bool)
    → width < length ustr
    → pad_cut ustr width dots pad_left ≡ (
        if leb 2 width && dots
        then take (width - 2) ustr ++ (b'.' ∷ b'.' ∷ [])
        else take width ustr)
unfolding pad_cut
pad_cut_cuts ustr width dots pad_left h =
    ground (arith, length-take width ustr, take-take (width - 2) width ustr)

AllScalar-if :
    (b : Bool) (us vs : List ℕ) → AllScalar us → AllScalar vs → AllScalar (if b then us else vs)
AllScalar-if true us vs h k = h
AllScalar-if false us vs h k = k

space_scalar : is_scalar b' ' ≡ true
unfolding is_scalar
space_scalar = refl

dot_scalar : is_scalar b'.' ≡ true
unfolding is_scalar
dot_scalar = refl

pad_cut-AllScalar :
    (ustr : List ℕ) (width : ℕ) (dots pad_left : Bool)
    → AllScalar ustr
    → AllScalar (pad_cut ustr width dots pad_left)
unfolding pad_cut
pad_cut-AllScalar ustr width dots pad_left h =
    AllScalar-if (ltb width (length ustr) && leb 2 width && dots)
      (take (length fitted - 2) fitted ++ (b'.' ∷ b'.' ∷ [])) fitted
      (AllScalar-append (take (length fitted - 2) fitted) (b'.' ∷ b'.' ∷ [])
        (AllScalar-take (length fitted - 2) fitted valid) (dot_scalar, (dot_scalar, tt)))
      valid
  where
    fill : List ℕ
    fill = replicate (width - length ustr) b' '

    fill-AllScalar : AllScalar fill
    fill-AllScalar = AllScalar-replicate (width - length ustr) b' ' space_scalar

    padded : List ℕ
    padded = if pad_left then fill ++ ustr else ustr ++ fill

    padded-AllScalar : AllScalar padded
    padded-AllScalar =
        AllScalar-if pad_left (fill ++ ustr) (ustr ++ fill)
          (AllScalar-append fill ustr fill-AllScalar h)
          (AllScalar-append ustr fill h fill-AllScalar)

    fitted : List ℕ
    fitted =
        if ltb width (length ustr)
        then take width ustr
        else if ltb (length ustr) width
        then padded
        else ustr

    valid : AllScalar fitted
    valid =
        AllScalar-if (ltb width (length ustr)) (take width ustr)
          (if ltb (length ustr) width then padded else ustr) (AllScalar-take width ustr h)
          (AllScalar-if (ltb (length ustr) width) padded ustr padded-AllScalar h)

-- Of the UTF-8 form of any text of valid code points `strPadCutTo` makes, with no exception, the
-- UTF-8 form of a text of exactly `width` code points.
pub str_pad_cut_to_width :
    (ustr str : List ℕ) (width : ℕ) (dots pad_left : Bool)
    → AllScalar ustr
    → utf_to_str ustr ≡ some str
    → (out : List ℕ) × (vstr : List ℕ) × (str_pad_cut_to str width dots pad_left ≡ some out)
      × (str_to_utf out ≡ some vstr)
      × (length vstr ≡ width)
unfolding str_pad_cut_to
str_pad_cut_to_width ustr str width dots pad_left h e =
    let (str', wrote, reads) = str_to_utf-utf_to_str ustr h in
    let (out, wrote', reads') =
      str_to_utf-utf_to_str (pad_cut ustr width dots pad_left)
        (pad_cut-AllScalar ustr width dots pad_left h) in
    (
      out,
      pad_cut ustr width dots pad_left,
      ground arith,
      reads',
      length-pad_cut ustr width dots pad_left,
    )
