-- ===== src/Config/Format/Outcomes.antt =====
-- driver/config.c: how SetLevelingConfig ends.
use fdlvling.Base.{
  ℕ, ◌≡◌, ◌≢◌, refl, sym, ◌∙◌, Bool, true, false, not, ◌||◌, ◌⊎◌, inl, inr, [], Option, none, some,
  arith, ◌==◌, if◌then◌else◌, if_cases,
}
use fdlvling.Device.{
  Extension, mode_error, mode_completed, mode_direct, mode_active, change_mode, change_mode_atomic,
}
use fdlvling.Recovery.{Layout, Drive, Outcome, read_failed, finished}
use fdlvling.Config.{Settings, mode_format, set_format_mode, get_max_chunks, get_new_ccn}
use fdlvling.Config.Format.{
  driver_version, driver_revision, mode_config, Wanted, Conf, Written, SetEnd, refuse, format_media,
  change_settings, finish_format, format_device, format_with, set_leveling_config,
}

module _ (lay : Layout) (ccn_of : ℕ → ℕ) (drive : Drive) (writes : ℕ → Bool) where
  -- How a request ends: one that does not format leaves the extension as it was; one that fails leaves
  -- it as it was and has written nothing, or leaves the mode ERROR; and a format that succeeds leaves
  -- the mode COMPLETED.
  pub record Ends (d : Extension) (mode : ℕ) (r : SetEnd lay ccn_of drive writes) : Type 0 where
    pub no_format : mode ≢ mode_format → r.extension ≡ d
    pub failed :
        r.ok ≡ false → ((r.extension ≡ d) × (r.written ≡ [])) ⊎ (r.extension.mode ≡ mode_error)
    pub formatted : r.ok ≡ true → mode ≡ mode_format → r.extension.mode ≡ mode_completed

  refuse-Ends :
      (d : Extension) (c : Option Settings) (mode : ℕ)
      → Ends d mode (refuse lay ccn_of drive writes d c)
  refuse-Ends d c mode = record {
    no_format = λ _. refl;
    failed = λ _. inl (refl, refl);
    formatted = λ e _. ground (arith, e);
  }

  finish_format-Ends :
      (d : Extension) (c : Option Settings) (w : Written)
      → Ends d mode_format (finish_format lay ccn_of drive writes (change_mode d mode_format) c w)
  unfolding finish_format change_mode_atomic change_mode
  finish_format-Ends d c (ws, false) = record {
    no_format = λ n. absurd (n refl);
    failed = λ _. inr refl;
    formatted = λ e _. ground (arith, e);
  }
  finish_format-Ends d c (ws, true) = record {
    no_format = λ n. absurd (n refl);
    failed = λ e. ground (arith, e);
    formatted = λ _ _. refl;
  }

  format_with-Ends :
      (d : Extension) (c : Option Settings) (b : Wanted) (o : Outcome (Option ℕ))
      → Ends d mode_format (format_with lay ccn_of drive writes d c b o)
  unfolding format_with format_device set_format_mode
  format_with-Ends d c b (read_failed place) = refuse-Ends d c mode_format
  format_with-Ends d c b (finished none) = refuse-Ends d c mode_format
  format_with-Ends d c b (finished (some ccn)) =
      let X = λ (p : Extension × Bool). Ends d mode_format (
        if not p.1
        then refuse lay ccn_of drive writes d c
        else finish_format lay ccn_of drive writes p.0 c
            (format_media lay ccn_of drive writes p.0 b ccn)) in
      if_cases X ((d.mode == mode_direct) || ((d.mode == mode_active) || (d.mode == mode_error)))
        (change_mode d mode_format, true) (d, false)
        (λ _.
          finish_format-Ends d c
            (format_media lay ccn_of drive writes (change_mode d mode_format) b ccn))
        (λ _. refuse-Ends d c mode_format)

  change_settings-Ends :
      (conf : (ℕ → Conf)) (d : Extension) (c : Option Settings) (b : Wanted)
      → Ends d mode_config (change_settings lay ccn_of drive writes conf d c b)
  unfolding change_settings
  change_settings-Ends conf d none b = refuse-Ends d none mode_config
  change_settings-Ends conf d (some c) b =
      let X = Ends d mode_config in
      if_cases X (not (drive.reads 0) || not (conf (drive.flash 0)).verified) _ _
        (λ _. refuse-Ends d (some c) mode_config)
        (λ _.
          if_cases X (writes 0) _ _
            (λ _. record {
              no_format = λ _. refl;
              failed = λ e. ground (arith, e);
              formatted = λ _ e. ground (arith, e);
            })
            (λ _. refuse-Ends d _ mode_config))

  Ends-mode :
      (d : Extension) (mode mode' : ℕ) (r : SetEnd lay ccn_of drive writes)
      → mode ≡ mode'
      → Ends d mode' r
      → Ends d mode r
  Ends-mode d mode mode' r e v = record {
    no_format = λ n. v.no_format (λ h. n (e ∙ h));
    failed = v.failed;
    formatted = λ ok h. v.formatted ok (sym e ∙ h);
  }

  -- Whatever the drive answers, for the DEVICE_EXTENSION and the writes to the drive that succeed
  -- (the settings of the context are not in the statement, and change in the mode CONFIG also where the
  -- write fails): SetLevelingConfig leaves the extension as it was where it is not to format; where the
  -- result is FALSE, the extension is as it was and no write has succeeded, or the mode is ERROR; and
  -- where it is to format and the result is TRUE, the mode is COMPLETED.
  pub set_leveling_config-Ends :
      (conf : (ℕ → Conf)) (d : Extension) (c : Option Settings) (b : Wanted)
      → Ends d b.mode (set_leveling_config lay ccn_of drive writes conf d c b)
  unfolding set_leveling_config
  set_leveling_config-Ends conf d c b =
      let X = Ends d b.mode in
      if_cases X (not (b.version == driver_version) || not (b.revision == driver_revision))
        (refuse lay ccn_of drive writes d c) _ (λ _. refuse-Ends d c b.mode)
        (λ _.
          if_cases X (b.mode == mode_config) (change_settings lay ccn_of drive writes conf d c b) _
            (λ e.
              Ends-mode d b.mode mode_config _ (ground (arith, e))
                (change_settings-Ends conf d c b))
            (λ _.
              if_cases X (not (b.mode == mode_format)) (refuse lay ccn_of drive writes d c) _
                (λ _. refuse-Ends d c b.mode)
                (λ e.
                  Ends-mode d b.mode mode_format _ (ground (arith, e)) (
                    format_with-Ends d c b
                      (get_new_ccn ccn_of drive (get_max_chunks d.last_lba))))))
