-- ===== src/LibDriverPlatform/Tests.antt =====
-- Runs of LibDriverPlatform.cpp on small inputs.
use processing_common.Common.{◌≡◌, refl, true, false, List, [], ◌∷◌, none, some}
use processing_common.LibDriverPlatform.{
  posix, windows, new_platform, Creation, driver_new, driver_platform_create, Limits,
}
use processing_common.LibDriverPlatform.Balance.{
  Call, create, clean_up, get_size, World, calls, IsBalanced, calls-IsBalanced,
}

abbrev creation : Creation
creation = record {
  attr_init = true;
  attr_set = true;
  allocated = true;
  thread = true;
  attr_destroy = true;
}

abbrev no_thread : Creation
no_thread = record creation { thread = false }

created : driver_platform_create windows creation 1 2 none new_platform ≡ (
  record new_platform { drivers = 1; threads = 1 },
  some (record { size_stack = 16384; fct_drive = 1; proc = 2 }),
)
unfolding driver_platform_create driver_new
created = refl

abbrev limits : Limits
limits = record {
  attr_got = true;
  size_got = true;
  size = 8192;
  attr_destroy = true;
  low = 0;
  high = 0;
}

abbrev some_calls : List Call
some_calls =
    create creation 1 2 none ∷ create no_thread 1 3 (some 4096) ∷ get_size limits ∷ clean_up 0 ∷ []

abbrev at_start : World
at_start = record { platform = new_platform; held = [] }

calls-IsBalanced_example : IsBalanced (calls posix some_calls at_start)
calls-IsBalanced_example =
    calls-IsBalanced posix some_calls at_start (refl, (refl, (refl, (tt, tt))))
      (record { attrs = refl; drivers = refl; threads = refl })
