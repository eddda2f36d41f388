-- ===== src/Device/Tests.antt =====
-- driver/vltl.c: a device in the mode ACTIVE.
use fdlvling.Base.{refl, true, false, some, arith}
use fdlvling.Device.{Extension, Context, went_wrong, tur_completion}
use fdlvling.Device.Safety.{AfterTur, tur_completion-active}

abbrev device : Extension
device = record {
  is_control_device = false;
  allow_always = false;
  mode = 2;
  removable_media = true;
  leveling_capable = true;
  maximum_transfer_length = 0x10000;
  last_lba = 0x1fffff;
  tur_errors = 5;
}

abbrev in_use : Context
in_use = record { read_pending = 1; other_pending = 0; timer_active = false }

tur_completion-active_example :
    AfterTur true device in_use went_wrong (tur_completion true device (some in_use) went_wrong)
tur_completion-active_example =
    tur_completion-active true device in_use went_wrong refl (omega arith)
