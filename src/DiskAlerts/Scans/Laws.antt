-- ===== src/DiskAlerts/Scans/Laws.antt =====
-- A disk that stays full is notified once.
use text.Mathlib.TextEquality.{eq_iff}
use native.Mathlib.Nat.{mul-le-mul_right}
use proxora.Common.{
  ℕ, ◌<◌, ◌≤◌, String, List, [], ◌∷◌, Bool, true, false, not, Option, none, some, ◌≡◌, refl, sym,
  ap, ◌∙◌, subst, arith, map, filter, includes, all, lookup, insert, lookup-insert, string_eq,
  Bool-cases, inl, inr, ◌&&◌, ◌||◌, ◌==◌, if◌then◌else◌,
}
use proxora.DiskAlerts.{
  Percent, parse_disk_alert_settings, clamp_percent, DiskAlertSettings, Watched, reaches,
  apply_disk_watch_state,
}
use proxora.DiskAlerts.Scans.{Flags, Samples, or_false, flag_of, live_flags, watch_all, remember}

-- All samples of a key reach a limit.
unfoldable pub stays_at : String → ℕ → Samples → Bool
stays_at key limit samples = all (λ s. not (s.0 == key) || reaches s.1 limit) samples

unfoldable pub has_sample : String → Samples → Bool
has_sample key samples = includes (map (λ s. s.0) samples) key

lookup-live_from :
    (keys : List String) (key : String) (flags : Flags)
    → includes keys key ≡ true
    → lookup key (filter (λ kv. includes keys kv.0) flags) ≡ lookup key flags
unfolding lookup
lookup-live_from keys key [] h = refl
lookup-live_from keys key ((k, flag) ∷ flags) h = elim (Bool-cases (k == key)) [
  | inl same ↦
      let at : k ≡ key = (eq_iff k key).0 same in
      let kept : includes keys k ≡ true = subst (λ x. includes keys x ≡ true) (sym at) h in
      ground (arith, lookup-live_from keys key flags h)
  | inr other ↦ ground (arith, lookup-live_from keys key flags h)
]

flag_of-live :
    (key : String) (samples : Samples) (flags : Flags)
    → has_sample key samples ≡ true
    → flag_of key (live_flags samples flags) ≡ flag_of key flags
unfolding flag_of live_flags has_sample
flag_of-live key samples flags h =
    ap or_false (lookup-live_from (map (λ s. s.0) samples) key flags h)

flag_of-insert :
    (key other : String) (flag : Bool) (flags : Flags)
    → flag_of other (insert key flag flags) ≡ (if key == other then flag else flag_of other flags)
unfolding flag_of
flag_of-insert key other flag flags = ground (arith, lookup-insert key other flag flags)

-- A set flag of a disk that stays at the lower limit: it stays set, and nothing is sent.
watch_all-quiet :
    (settings : DiskAlertSettings) (key : String) (samples : Samples) (flags : Flags)
    → flag_of key flags ≡ true
    → stays_at key settings.clear_percent samples ≡ true
    → (includes (watch_all settings samples flags).0 key ≡ false)
      × (flag_of key (watch_all settings samples flags).1 ≡ true)
unfolding watch_all includes stays_at apply_disk_watch_state
watch_all-quiet settings key [] flags set h = (refl, set)
watch_all-quiet settings key ((k, percent) ∷ samples) flags set h =
    let next =
      apply_disk_watch_state (flag_of k flags) percent settings.alert_percent
        settings.clear_percent in
    ground (
      arith,
      watch_all-quiet settings key samples (insert k next.notified flags),
      flag_of-insert k key next.notified flags,
      eq_iff k key,
    )

-- The limits that the settings give: the lower one lies below the upper one, and both are percentages.
pub parse_disk_alert_settings-bounds :
    (alert clear : Option ℕ)
    → ((parse_disk_alert_settings alert clear).clear_percent
        < (parse_disk_alert_settings alert clear).alert_percent)
      × ((parse_disk_alert_settings alert clear).alert_percent ≤ 99)
unfolding parse_disk_alert_settings clamp_percent
parse_disk_alert_settings-bounds none none = ground arith
parse_disk_alert_settings-bounds none (some c) = ground arith
parse_disk_alert_settings-bounds (some a) none = ground arith
parse_disk_alert_settings-bounds (some a) (some c) = ground arith

reaches_mono :
    (percent : Percent) (lower upper : ℕ)
    → lower ≤ upper
    → reaches percent upper ≡ true
    → reaches percent lower ≡ true
unfolding reaches
reaches_mono percent lower upper h r = ground (arith, mul-le-mul_right percent.whole h)

stays_at_mono :
    (key : String) (lower upper : ℕ) (samples : Samples)
    → lower ≤ upper
    → stays_at key upper samples ≡ true
    → stays_at key lower samples ≡ true
unfolding stays_at
stays_at_mono key lower upper [] order h = refl
stays_at_mono key lower upper ((k, percent) ∷ samples) order h =
    ground
      (arith, reaches_mono percent lower upper order, stays_at_mono key lower upper samples order)

apply_at_upper :
    (flag : Bool) (percent : Percent) (alert_at clear_at : ℕ)
    → clear_at ≤ alert_at
    → reaches percent alert_at ≡ true
    → apply_disk_watch_state flag percent alert_at clear_at
      ≡ record { notify = not flag; notified = true }
unfolding apply_disk_watch_state
apply_at_upper true percent alert_at clear_at order h =
    rw (h, reaches_mono percent clear_at alert_at order h) refl
apply_at_upper false percent alert_at clear_at order h = rw h refl

-- A disk of which all samples reach the upper limit: it is sent if its flag was not set, and the flag is set.
watch_all-sends :
    (settings : DiskAlertSettings) (key : String) (samples : Samples) (flags : Flags)
    → settings.clear_percent ≤ settings.alert_percent
    → stays_at key settings.alert_percent samples ≡ true
    → has_sample key samples ≡ true
    → (includes (watch_all settings samples flags).0 key ≡ not (flag_of key flags))
      × (flag_of key (watch_all settings samples flags).1 ≡ true)
unfolding watch_all includes stays_at has_sample apply_disk_watch_state
watch_all-sends settings key [] flags order h there = cc
watch_all-sends settings key ((k, percent) ∷ samples) flags order h there =
    let next =
      apply_disk_watch_state (flag_of k flags) percent settings.alert_percent
        settings.clear_percent in
    elim (Bool-cases (k == key)) [
      | inl same ↦
          let full : reaches percent settings.alert_percent ≡ true = ground arith in
          let step =
            apply_at_upper (flag_of k flags) percent settings.alert_percent settings.clear_percent
              order full in
          let set : flag_of key (insert k next.notified flags) ≡ true =
            flag_of-insert k key next.notified flags
            ∙ ap (λ b. if b then next.notified else flag_of key flags) same
            ∙ ap (λ (w : Watched). w.notified) step in
          let low =
            stays_at_mono key settings.clear_percent settings.alert_percent samples order
              (ground arith) in
          let quiet = watch_all-quiet settings key samples (insert k next.notified flags) set low in
          let sent : next.notify ≡ not (flag_of key flags) =
            ap (λ (w : Watched). w.notify) step
            ∙ ap (λ x. not (flag_of x flags)) ((eq_iff k key).0 same) in
          ground (arith, quiet, sent, same)
      | inr other ↦ ground (
        arith,
        watch_all-sends settings key samples (insert k next.notified flags) order,
        flag_of-insert k key next.notified flags,
        eq_iff k key,
      )
    ]

-- For each scan of a sequence, whether it notifies a disk.
unfoldable pub notices : String → DiskAlertSettings → List Samples → Flags → List Bool
notices key settings [] flags = []
notices key settings (samples ∷ scans) flags =
    let done = remember settings samples flags in
    includes done.0 key ∷ notices key settings scans done.1

unfoldable pub hovers : String → ℕ → List Samples → Bool
hovers key limit scans = all (λ samples. has_sample key samples && stays_at key limit samples) scans

notices-quiet :
    (key : String) (settings : DiskAlertSettings) (scans : List Samples) (flags : Flags)
    → flag_of key flags ≡ true
    → hovers key settings.clear_percent scans ≡ true
    → notices key settings scans flags ≡ map (λ samples. false) scans
unfolding notices hovers remember
notices-quiet key settings [] flags set h = refl
notices-quiet key settings (samples ∷ scans) flags set h =
    let live = flag_of-live key samples flags (ground arith) in
    let (quiet, still) =
      watch_all-quiet settings key samples (live_flags samples flags) (live ∙ set) (ground arith) in
    let rest =
      notices-quiet key settings scans (watch_all settings samples (live_flags samples flags)).1
        still (ground arith) in
    ground (arith, quiet, rest)

-- A disk that fills up is notified once: the scan in which it reaches the upper limit notifies it, unless it is marked
-- as notified already, and the scans after that, as long as the disk is in each of them and does not fall below
-- the lower limit, do not. The limits are those of any settings.
pub notices-once :
    (alert clear : Option ℕ) (key : String) (first : Samples) (scans : List Samples) (flags : Flags)
    → has_sample key first ≡ true
    → stays_at key (parse_disk_alert_settings alert clear).alert_percent first ≡ true
    → hovers key (parse_disk_alert_settings alert clear).clear_percent scans ≡ true
    → notices key (parse_disk_alert_settings alert clear) (first ∷ scans) flags
      ≡ not (flag_of key flags) ∷ map (λ samples. false) scans
unfolding notices remember
notices-once alert clear key first scans flags there full later =
    let settings = parse_disk_alert_settings alert clear in
    let order : settings.clear_percent ≤ settings.alert_percent =
      omega (arith, (parse_disk_alert_settings-bounds alert clear).0) in
    let (sent, set) =
      watch_all-sends settings key first (live_flags first flags) order full there in
    let live = flag_of-live key first flags there in
    let rest =
      notices-quiet key settings scans (watch_all settings first (live_flags first flags)).1 set
        later in
    ap (λ b. b ∷ notices key settings scans (watch_all settings first (live_flags first flags)).1)
      (sent ∙ ap not live)
    ∙ ap (λ bs. not (flag_of key flags) ∷ bs) rest
