-- ===== src/Config/Save/Failure.antt =====
-- What `vzctl2_conf_save` does to its configuration when it fails.
use libvzctl.Common.{List, Str, ◌≡◌, ◌≢◌, refl, true, false, none, [], ◌∷◌, arith, All}
use libvzctl.Config.{fgets_all, Conf, Open, opened, no_entry, open_failed}
use libvzctl.Config.Save.{
  save_lines, save_to, save_from, unresolved, SaveCalls, save_failed, reset_marks, conf_save,
}

reset_marks-none_updated : (conf : Conf) → All (λ d. d.mask.updated ≡ false) (reset_marks conf)
unfolding reset_marks
reset_marks-none_updated [] = tt
reset_marks-none_updated (d ∷ ds) = (refl, reset_marks-none_updated ds)

save_to-conf : (o : SaveCalls) (p : Conf × List Str) → (save_to o p).conf ≡ reset_marks p.0
unfolding save_to
save_to-conf o p = ground arith

save_from-conf :
    (o : SaveCalls) (conf : Conf) (f : Open)
    → f ≢ open_failed
    → (c : Conf) × ((save_from o conf f).conf ≡ reset_marks c)
unfolding save_from
save_from-conf o conf (opened text) n = (_, save_to-conf o (save_lines conf (fgets_all 65536 text)))
save_from-conf o conf no_entry n = (_, save_to-conf o (conf, []))
save_from-conf o conf open_failed n = absurd (n refl)

conf_save-from :
    (o : SaveCalls) (conf : Conf)
    → o.path ≢ unresolved
    → o.open_out ≡ true
    → conf_save o conf ≡ save_from o conf o.in_file
unfolding conf_save
conf_save-from o conf p w = ground arith

-- When the last rename of a save fails, the old file stays and an error is returned, yet no entry of
-- the configuration is marked as updated any more: saving again would write none of the updates.
pub conf_save_rename_failure :
    (o : SaveCalls) (conf : Conf)
    → o.path ≢ unresolved
    → o.open_out ≡ true
    → o.in_file ≢ open_failed
    → o.renamed ≡ false
    → ((conf_save o conf).ret ≡ save_failed)
      × ((conf_save o conf).file ≡ none)
      × All (λ d. d.mask.updated ≡ false) (conf_save o conf).conf
unfolding conf_save
conf_save_rename_failure o conf p w i r =
    let (c, e) = save_from-conf o conf o.in_file i in
    (ground arith, ground arith, rw (conf_save-from o conf p w) (rw e (reset_marks-none_updated c)))
