-- ===== src/LibDriverPlatform.antt =====
-- LibDriverPlatform.cpp: a thread with a stack of a chosen size, on POSIX or Windows. What the
-- operating system and the allocator answer is an argument.
pub mod Balance
pub mod Tests
use processing_common.Common.{
  ℕ, suc, ◌+◌, ◌-◌, Bool, true, false, not, if◌then◌else◌, List, [], ◌∷◌, Option, none, some,
}

pub data Os : Type 0 where
  posix windows : Os

-- DriverPlatform: its configuration, the function and its argument.
pub record Driver : Type 0 where
  pub size_stack : ℕ
  pub fct_drive : ℕ
  pub proc : ℕ

-- The attributes, drivers and threads that have been made and not yet given back, and the default
-- size of a stack.
pub record Platform : Type 0 where
  pub size_stack_default : ℕ
  pub attrs : ℕ
  pub drivers : ℕ
  pub threads : ℕ

-- The default is 16384 at first.
abbrev pub new_platform : Platform
new_platform = record { size_stack_default = 16384; attrs = 0; drivers = 0; threads = 0 }

unfoldable pub size_stack_default_set : ℕ → Platform → Platform
size_stack_default_set size p = record p { size_stack_default = size }

-- Which calls succeed: of pthread_attr_init() to pthread_create(), or of CreateThread().
pub record Creation : Type 0 where
  pub attr_init : Bool
  pub attr_set : Bool
  pub allocated : Bool
  pub thread : Bool
  pub attr_destroy : Bool

-- The configuration of the caller, or a new one.
abbrev pub config_of : Option ℕ → Platform → ℕ
config_of none p = p.size_stack_default
config_of (some size) p = size

abbrev attr_gone : Bool → Platform → Platform
attr_gone destroyed p = if destroyed then record p { attrs = p.attrs - 1 } else p

unfoldable pub driver_new : Bool → Bool → Driver → Platform → Platform × Option Driver
driver_new allocated thread drv p =
    if not allocated
    then (p, none)
    else if not thread
    then (p, none)
    else (record p { drivers = suc p.drivers; threads = suc p.threads }, some drv)

unfoldable pub driver_platform_create :
    Os → Creation → ℕ → ℕ → Option ℕ → Platform → Platform × Option Driver
unfolding driver_new
driver_platform_create posix c fct proc config p =
    let drv : Driver = record { size_stack = config_of config p; fct_drive = fct; proc = proc } in
    let made = driver_new c.allocated c.thread drv (record p { attrs = suc p.attrs }) in
    if not c.attr_init
    then (p, none)
    else if not c.attr_set
    then (attr_gone c.attr_destroy (record p { attrs = suc p.attrs }), none)
    else (attr_gone c.attr_destroy made.0, made.1)
driver_platform_create windows c fct proc config p =
    let drv : Driver = record { size_stack = config_of config p; fct_drive = fct; proc = proc } in
    driver_new c.allocated c.thread drv p

-- `joined` is whether the thread has been waited for and given back.
unfoldable pub driver_platform_clean_up : Bool → Platform → Platform
driver_platform_clean_up joined p = record p {
  drivers = p.drivers - 1;
  threads = if joined then p.threads - 1 else p.threads;
}

-- The function that a thread calls, and its argument.
abbrev pub thread_execute : Driver → ℕ × ℕ
thread_execute drv = (drv.fct_drive, drv.proc)

-- What the thread is asked about itself on POSIX: the attributes and the size of its stack, or the
-- limits of its stack on Windows.
pub record Limits : Type 0 where
  pub attr_got : Bool
  pub size_got : Bool
  pub size : ℕ
  pub attr_destroy : Bool
  pub low : ℕ
  pub high : ℕ

unfoldable pub size_stack_get : Os → Limits → Platform → Platform × ℕ
size_stack_get posix l p = if not l.attr_got then (p, 0) else (
  attr_gone l.attr_destroy (record p { attrs = suc p.attrs }),
  if l.size_got then l.size else 0,
)
size_stack_get windows l p = (p, l.high - l.low)
