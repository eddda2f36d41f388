-- ===== src/Registry/Tests.antt =====
-- driver/registry.c: a pattern and a device.
use fdlvling.Base.{ℕ, ◌≡◌, refl, Bool, true, false, none, some, [], ◌∷◌, arith, ◌==◌, if◌then◌else◌}
use fdlvling.Registry.{
  too_small, refused, given, System, pattern_match, compare_query, check_device_config,
}
use fdlvling.Registry.Match.{Matches}
use fdlvling.Registry.Loop.{Name, pattern_match-Matches}

-- The id "USB" and the pattern "U*B".
abbrev usb : ℕ → ℕ
usb j = if j == 0 then 85 else if j == 1 then 83 else if j == 2 then 66 else 0

abbrev any_ub : ℕ → ℕ
any_ub i = if i == 0 then 85 else if i == 1 then 42 else if i == 2 then 66 else 0

usb-Name : Name usb 3
usb-Name = record { over = refl; before = λ t h. ground (arith, h) }

pattern_match-Matches_example :
    (fuel : ℕ) × (b : Bool) × (pattern_match fuel usb any_ub 8 ≡ some b)
    × (b ≡ true → Matches usb any_ub 8 0 0)
    × (Matches usb any_ub 8 0 0 → b ≡ true)
pattern_match-Matches_example = pattern_match-Matches usb any_ub 8 3 usb-Name

usb-matches : pattern_match 8 usb any_ub 8 ≡ some true
unfolding pattern_match
usb-matches = refl

counted : compare_query 8 usb (record { type = 1; data_at = any_ub; length = 8 }) 0 ≡ some 1
unfolding compare_query
counted = refl

-- A system whose first buffer is too small, and where the id is allowed once: the device is taken, and
-- no allocation is left. Where IoGetDeviceProperty fails, one is left.
abbrev system : System
system = record {
  allocates = λ i n. true;
  table_size = 392;
  property = λ n. if n == 256 then too_small 300 else given usb;
  values = record {
    allow_always = [];
    deny = [];
    allow = record { type = 1; data_at = any_ub; length = 8 } ∷ [];
    tobe_removable = [];
    tobe_fixed = [];
  };
}

taken :
    check_device_config 2 8 system
    ≡ some (some (record { always = false; removable = false; fixed = false }), 0)
unfolding check_device_config
taken = refl

leaks : check_device_config 2 8 (record system { property = λ n. refused }) ≡ some (none, 1)
unfolding check_device_config
leaks = refl
