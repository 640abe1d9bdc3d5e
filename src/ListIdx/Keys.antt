-- ===== src/ListIdx/Keys.antt =====
-- ListIdx.cpp: `keyProcess`. The keys to ignore are a C string, here the list of its characters,
-- which is empty for NULL.
use processing_common.Common.{
  ℕ, ◌<◌, ◌≡◌, ◌↔◌, refl, ap, arith, Bool, true, false, not, ◌||◌, ◌&&◌, if◌then◌else◌, List, [],
  ◌∷◌, zero, suc,
}
use processing_common.KeyUser.{
  KeyUser, eq_ctrl, ne_char, assign_char, key_ctrl_set, no_key, of_char32, key_pg_up, key_pg_dn,
}
use processing_common.KeyUser.Checks.{
  key_is_up, key_is_down, key_is_up_jump, key_is_down_jump, key_is_home, key_is_end,
}
use processing_common.ListIdx.{
  ListIdx, inc, dec, inc_jump, dec_jump, repeat_move, reset, cursor_end_set, cursor_abs,
}
use processing_common.ListIdx.Bounds.{
  IsValid, inc-IsValid, dec-IsValid, reset-IsValid, cursor_end_set-IsValid, inc_jump-IsValid,
  dec_jump-IsValid,
}
use processing_common.ListIdx.Moves.{
  Keeps, inc-Keeps, dec-Keeps, inc_lem, dec_lem, inc_jump_lem, dec_jump_lem,
}

-- The page keys are looked up in the list of ignored keys as 'K' and 'J'.
unfoldable pub key_cmp : KeyUser → KeyUser
unfolding eq_ctrl assign_char
key_cmp key =
    let key' = if eq_ctrl key key_pg_up then assign_char key b'K' else key in
    if eq_ctrl key' key_pg_dn then assign_char key' b'J' else key'

-- The loop over `pListKeysDisabled`.
unfoldable pub is_disabled : KeyUser → List ℕ → Bool
unfolding ne_char
is_disabled key [] = false
is_disabled key (ch ∷ rest) = if ne_char key ch then is_disabled key rest else true

unfoldable pub key_process : ListIdx → KeyUser → List ℕ → ListIdx × Bool
key_process l key keys_disabled =
    let disabled = is_disabled (key_cmp key) keys_disabled in
    if key_is_down key && not disabled
    then inc l
    else if key_is_up key && not disabled
    then dec l
    else if key_is_down_jump key && not disabled
    then inc_jump l
    else if key_is_up_jump key && not disabled
    then dec_jump l
    else if key_is_home key && not disabled
    then reset l
    else if key_is_end key && not disabled
    then cursor_end_set l
    else (l, false)

if_case {ℓ κ} :
    {A : Type ℓ} (P : A → Type κ) (b : Bool) {x y : A} → P x → P y → P (if b then x else y)
if_case P true p q = p
if_case P false p q = q

-- A result that is one of the six moves, or nothing.
pub key_process_cases {ℓ} :
    (P : ListIdx × Bool → Type ℓ) (l : ListIdx)
    → P (inc l)
    → P (dec l)
    → P (inc_jump l)
    → P (dec_jump l)
    → P (reset l)
    → P (cursor_end_set l)
    → P (l, false)
    → (key : KeyUser) (keys_disabled : List ℕ) → P (key_process l key keys_disabled)
unfolding key_process
key_process_cases P l a b c d e f g key ks =
    if_case P _ a (if_case P _ b (if_case P _ c (if_case P _ d (if_case P _ e (if_case P _ f g)))))

-- Whatever the key, the index stays valid.
pub key_process-IsValid :
    (l : ListIdx) (key : KeyUser) (keys_disabled : List ℕ)
    → IsValid l
    → IsValid (key_process l key keys_disabled).0
key_process-IsValid l key ks v =
    key_process_cases (λ r. IsValid r.0) l (inc-IsValid l v) (dec-IsValid l v)
      (inc_jump-IsValid l v) (dec_jump-IsValid l v) (reset-IsValid l v) (cursor_end_set-IsValid l v)
      v key ks

pub repeat_move-Keeps :
    (move : ListIdx → ListIdx × Bool)
    → ((l : ListIdx) → Keeps l (move l).0)
    → (n : ℕ) (l : ListIdx) (changed : Bool) → Keeps l (repeat_move move n l changed).0
unfolding repeat_move
repeat_move-Keeps move keep zero l changed = omega arith
repeat_move-Keeps move keep (suc n) l changed =
    omega (arith, keep l, repeat_move-Keeps move keep n (move l).0 (changed || (move l).1))

pub reset-Keeps : (l : ListIdx) → Keeps l (reset l).0
unfolding reset
reset-Keeps l = ground arith

pub cursor_end_set-Keeps : (l : ListIdx) → Keeps l (cursor_end_set l).0
unfolding cursor_end_set
cursor_end_set-Keeps l = ground arith

pub key_process-Keeps :
    (l : ListIdx) (key : KeyUser) (keys_disabled : List ℕ)
    → Keeps l (key_process l key keys_disabled).0
unfolding inc_jump dec_jump
key_process-Keeps l key ks =
    key_process_cases (λ r. Keeps l r.0) l (inc-Keeps l) (dec-Keeps l)
      (repeat_move-Keeps inc inc-Keeps l.size_jump l false)
      (repeat_move-Keeps dec dec-Keeps l.size_jump l false) (reset-Keeps l) (cursor_end_set-Keeps l)
      (omega arith) key ks

abbrev Tells : ListIdx → ListIdx × Bool → Type 0
Tells l r = (r.1 ≡ false) ↔ (r.0 ≡ l)

inc-Tells : (l : ListIdx) → IsValid l → Tells l (inc l)
unfolding inc
inc-Tells l v = (λ h. ground arith, λ h. ground arith)

dec-Tells : (l : ListIdx) → IsValid l → Tells l (dec l)
unfolding dec
dec-Tells l v = (λ h. ground arith, λ h. ground arith)

reset-Tells : (l : ListIdx) → IsValid l → Tells l (reset l)
unfolding reset
reset-Tells l v = (λ h. ground arith, λ h. ground arith)

cursor_end_set-Tells : (l : ListIdx) → IsValid l → Tells l (cursor_end_set l)
unfolding cursor_end_set
cursor_end_set-Tells l v = (λ h. ground arith, λ h. ground arith)

-- A move that does nothing does nothing when it is repeated.
repeat_move_idle :
    (move : ListIdx → ListIdx × Bool) (n : ℕ) (l : ListIdx)
    → move l ≡ (l, false)
    → repeat_move move n l false ≡ (l, false)
unfolding repeat_move
repeat_move_idle move zero l h = refl
repeat_move_idle move (suc n) l h = rw h (repeat_move_idle move n l h)

inc_idle : (l : ListIdx) → IsValid l → (inc l).1 ≡ false → inc l ≡ (l, false)
inc_idle l v h = ground (arith, (inc-Tells l v).0 h)

dec_idle : (l : ListIdx) → IsValid l → (dec l).1 ≡ false → dec l ≡ (l, false)
dec_idle l v h = ground (arith, (dec-Tells l v).0 h)

inc_jump-Tells : (l : ListIdx) → IsValid l → 0 < l.win → 0 < l.size → Tells l (inc_jump l)
inc_jump-Tells l v w s = (still, λ h. ground (arith, inc_jump_lem l v w s, ap cursor_abs h))
  where
    still : (inc_jump l).1 ≡ false → (inc_jump l).0 ≡ l
    still h =
        let idle : inc l ≡ (l, false) =
          inc_idle l v (ground (arith, inc_jump_lem l v w s, inc_lem l v w)) in
        let same : inc_jump l ≡ (l, false) =
          unfold inc_jump in repeat_move_idle inc l.size_jump l idle in
        ground (arith, same)

dec_jump-Tells : (l : ListIdx) → IsValid l → 0 < l.win → Tells l (dec_jump l)
dec_jump-Tells l v w = (still, λ h. ground (arith, dec_jump_lem l v w, ap cursor_abs h))
  where
    still : (dec_jump l).1 ≡ false → (dec_jump l).0 ≡ l
    still h =
        let idle : dec l ≡ (l, false) =
          dec_idle l v (ground (arith, dec_jump_lem l v w, dec_lem l v w)) in
        let same : dec_jump l ≡ (l, false) =
          unfold dec_jump in repeat_move_idle dec l.size_jump l idle in
        ground (arith, same)

-- The result of `keyProcess` is false exactly if the key changed nothing, for every key and every
-- list of ignored keys, in a valid index whose window and list are not empty.
pub key_process-Tells :
    (l : ListIdx) (key : KeyUser) (keys_disabled : List ℕ)
    → IsValid l
    → 0 < l.win
    → 0 < l.size
    → ((key_process l key keys_disabled).1 ≡ false) ↔ ((key_process l key keys_disabled).0 ≡ l)
key_process-Tells l key ks v w s =
    key_process_cases (Tells l) l (inc-Tells l v) (dec-Tells l v) (inc_jump-Tells l v w s)
      (dec_jump-Tells l v w) (reset-Tells l v) (cursor_end_set-Tells l v) (λ h. refl, λ h. refl) key
      ks

is_disabled-print :
    (k k' : KeyUser) (ks : List ℕ)
    → k.is_print ≡ k'.is_print
    → k.print ≡ k'.print
    → is_disabled k ks ≡ is_disabled k' ks
unfolding is_disabled
is_disabled-print k k' [] p q = refl
is_disabled-print k k' (ch ∷ ks) p q = ground (arith, is_disabled-print k k' ks p q)

-- The page keys do what 'K' and 'J' do, and are ignored where those are.
pub key_process_page :
    (l : ListIdx) (keys_disabled : List ℕ)
    → (key_process l (key_ctrl_set no_key key_pg_up) keys_disabled
        ≡ key_process l (of_char32 b'K') keys_disabled)
      × (key_process l (key_ctrl_set no_key key_pg_dn) keys_disabled
          ≡ key_process l (of_char32 b'J') keys_disabled)
unfolding key_process key_cmp key_ctrl_set no_key of_char32 key_is_up key_is_down key_is_up_jump
    key_is_down_jump key_is_home key_is_end
key_process_page l ks = (
  rw (
      is_disabled-print (assign_char (key_ctrl_set no_key key_pg_up) b'K') (of_char32 b'K') ks refl
        refl),
  rw (
      is_disabled-print (assign_char (key_ctrl_set no_key key_pg_dn) b'J') (of_char32 b'J') ks refl
        refl),
)
