-- ===== src/LibDriverPlatform/Balance.antt =====
-- Whatever LibDriverPlatform.cpp makes is given back.
use processing_common.Common.{
  ℕ, zero, suc, ◌-◌, ◌≡◌, ◌∙◌, inl, inr, refl, sym, subst, ap, arith, Bool, true, false, List, [],
  ◌∷◌, Option, none, some, length, Bool-cases,
}
use processing_common.LibDriverPlatform.{
  Os, posix, windows, Driver, Platform, size_stack_default_set, Creation, config_of, driver_new,
  driver_platform_create, driver_platform_clean_up, Limits, size_stack_get,
}

-- The calls of a program: the one on a driver names it by its position.
pub data Call : Type 0 where
  set_default : ℕ → Call
  create : Creation → ℕ → ℕ → Option ℕ → Call
  clean_up : ℕ → Call
  get_size : Limits → Call

pub record World : Type 0 where
  pub platform : Platform
  pub held : List Driver

abbrev pub taken : Option Driver → List Driver → List Driver
taken none held = held
taken (some drv) held = drv ∷ held

abbrev kept : Driver → Option (List Driver) → Option (List Driver)
kept drv none = none
kept drv (some held) = some (drv ∷ held)

-- The drivers without one of them, if it is there.
abbrev pub without_at : ℕ → List Driver → Option (List Driver)
without_at i [] = none
without_at zero (drv ∷ held) = some held
without_at (suc i) (drv ∷ held) = kept drv (without_at i held)

abbrev cleaned : World → Option (List Driver) → World
cleaned w none = w
cleaned w (some rest) = record { platform = driver_platform_clean_up true w.platform; held = rest }

unfoldable pub call : Os → Call → World → World
unfolding driver_platform_create size_stack_get driver_platform_clean_up size_stack_default_set
call os (set_default size) w = record w { platform = size_stack_default_set size w.platform }
call os (create c fct proc config) w =
    let made = driver_platform_create os c fct proc config w.platform in
    record { platform = made.0; held = taken made.1 w.held }
call os (clean_up i) w = cleaned w (without_at i w.held)
call os (get_size l) w = record w { platform = (size_stack_get os l w.platform).0 }

unfoldable pub calls : Os → List Call → World → World
unfolding call
calls os [] w = w
calls os (c ∷ cs) w = calls os cs (call os c w)

-- The calls that give attributes back succeed.
abbrev pub Frees : Call → Type 0
Frees (set_default size) = Unit {0}
Frees (create c fct proc config) = c.attr_destroy ≡ true
Frees (clean_up i) = Unit {0}
Frees (get_size l) = l.attr_destroy ≡ true

abbrev pub AllFree : List Call → Type 0
AllFree [] = Unit {0}
AllFree (c ∷ cs) = Frees c × AllFree cs

-- One thread and one driver for each that the program holds, and no attributes.
pub record IsBalanced (w : World) : Type 0 where
  pub attrs : w.platform.attrs ≡ 0
  pub drivers : w.platform.drivers ≡ length w.held
  pub threads : w.platform.threads ≡ length w.held

length-kept :
    (drv : Driver) (n : ℕ) (o : Option (List Driver)) (rest : List Driver)
    → ((held : List Driver) → o ≡ some held → n ≡ suc (length held))
    → kept drv o ≡ some rest
    → suc n ≡ suc (length rest)
length-kept drv n none rest ih h = absurd cc
length-kept drv n (some held) rest ih h =
    let same : drv ∷ held ≡ rest = cc in omega (arith, ih held refl, ap length same)

length-without_at :
    (i : ℕ) (held rest : List Driver)
    → without_at i held ≡ some rest
    → length held ≡ suc (length rest)
length-without_at i [] rest h = absurd cc
length-without_at zero (drv ∷ held) rest h = let same : held ≡ rest = cc in ap suc (ap length same)
length-without_at (suc i) (drv ∷ held) rest h =
    length-kept drv (length held) (without_at i held) rest (length-without_at i held) h

cleaned-IsBalanced :
    (w : World) (o : Option (List Driver))
    → ((rest : List Driver) → o ≡ some rest → length w.held ≡ suc (length rest))
    → IsBalanced w
    → IsBalanced (cleaned w o)
unfolding driver_platform_clean_up
cleaned-IsBalanced w none one b = b
cleaned-IsBalanced w (some rest) one b = record {
  attrs = b.attrs;
  drivers = omega (arith, one rest refl, b.drivers);
  threads = omega (arith, one rest refl, b.threads);
}

-- A platform and a driver that are balanced by `w` but for the attributes.
abbrev Made : ℕ → List Driver → Platform × Option Driver → Type 0
Made attrs held r =
    (r.0.attrs ≡ attrs)
    × (r.0.drivers ≡ length (taken r.1 held))
    × (r.0.threads ≡ length (taken r.1 held))

driver_new-Made :
    (allocated thread : Bool) (drv : Driver) (p : Platform) (held : List Driver)
    → p.drivers ≡ length held
    → p.threads ≡ length held
    → Made p.attrs held (driver_new allocated thread drv p)
unfolding driver_new
driver_new-Made false thread drv p held d t = (refl, d, t)
driver_new-Made true false drv p held d t = (refl, d, t)
driver_new-Made true true drv p held d t = (refl, ap suc d, ap suc t)

driver_platform_create-Made :
    (os : Os) (c : Creation) (fct proc : ℕ) (config : Option ℕ) (w : World)
    → c.attr_destroy ≡ true
    → IsBalanced w
    → Made 0 w.held (driver_platform_create os c fct proc config w.platform)
unfolding driver_platform_create
driver_platform_create-Made posix c fct proc config w f b =
    let drv : Driver = record {
      size_stack = config_of config w.platform;
      fct_drive = fct;
      proc = proc;
    } in
    let p : Platform = record w.platform { attrs = suc w.platform.attrs } in
    let (a, d, t) = driver_new-Made c.allocated c.thread drv p w.held b.drivers b.threads in
    elim (Bool-cases c.attr_init) [
      | inl some_attr ↦ elim (Bool-cases c.attr_set) [
        | inl big ↦ simp (some_attr, big, f) (omega (arith, a, b.attrs), d, t)
        | inr small ↦ simp (some_attr, small, f) (omega (arith, b.attrs), b.drivers, b.threads)
      ]
      | inr no_attr ↦ simp no_attr (b.attrs, b.drivers, b.threads)
    ]
driver_platform_create-Made windows c fct proc config w f b =
    let drv : Driver = record {
      size_stack = config_of config w.platform;
      fct_drive = fct;
      proc = proc;
    } in
    let (a, d, t) =
      driver_new-Made c.allocated c.thread drv w.platform w.held b.drivers b.threads in
    (a ∙ b.attrs, d, t)

size_stack_get-attrs :
    (os : Os) (l : Limits) (p : Platform) → l.attr_destroy ≡ true → (size_stack_get os l p).0 ≡ p
unfolding size_stack_get
size_stack_get-attrs posix l p f = elim (Bool-cases l.attr_got) [
  | inl got ↦
      let same : suc p.attrs - 1 ≡ p.attrs = omega arith in
      rw (got, f) (ap (λ n. record p { attrs = n }) same)
  | inr none_got ↦ rw none_got refl
]
size_stack_get-attrs windows l p f = refl

call-IsBalanced :
    (os : Os) (c : Call) (w : World) → Frees c → IsBalanced w → IsBalanced (call os c w)
unfolding call size_stack_default_set
call-IsBalanced os (set_default size) w f b = record {
  attrs = b.attrs;
  drivers = b.drivers;
  threads = b.threads;
}
call-IsBalanced os (create c fct proc config) w f b =
    let (a, d, t) = driver_platform_create-Made os c fct proc config w f b in
    record { attrs = a; drivers = d; threads = t }
call-IsBalanced os (clean_up i) w f b =
    cleaned-IsBalanced w (without_at i w.held) (length-without_at i w.held) b
call-IsBalanced os (get_size l) w f b =
    subst (λ p. IsBalanced (record w { platform = p }))
      (sym (size_stack_get-attrs os l w.platform f)) b

-- On POSIX and Windows, if the attributes are always destroyed and the threads always joined, then
-- after any sequence of calls there is one driver and one thread for each that the program holds,
-- and no attributes are left, whichever of the other calls failed, if that was so before.
pub calls-IsBalanced :
    (os : Os) (cs : List Call) (w : World) → AllFree cs → IsBalanced w → IsBalanced (calls os cs w)
unfolding calls
calls-IsBalanced os [] w f b = b
calls-IsBalanced os (c ∷ cs) w f b =
    calls-IsBalanced os cs (call os c w) f.1 (call-IsBalanced os c w f.0 b)
