-- ===== src/Recovery/Replay.antt =====
-- driver/recovery.c and driver/vscsi.c: the recovery replays every cache that was purged.
use fdlvling.Base.{
  ℕ, suc, ◌+◌, ◌-◌, ◌≤◌, ◌≡◌, refl, sym, ap, ◌∙◌, true, false, ◌⊎◌, inl, inr, arith, add32, mul32,
  leb, if-true, if-false, dec_lt,
}
use fdlvling.Store.{Store, Flash, size_of_chunk, last_purge_pos, last_cache_pos}
use fdlvling.Chunk.{PurgeCtl, execute_purge_cache, purge_flash}
use fdlvling.Recovery.{
  Layout, Drive, Identity, finished, is_next_record, record_place, replay_record, replay,
  replay_rounds,
}
use fdlvling.Recovery.Purges.{
  stop, between, purges, Agrees, Agrees-sym, Agrees-trans, Purges, Purges-old, after_purge-chunk,
  after_purge-pos, purge-record, purge_ctl_of,
}
use fdlvling.Recovery.Rounds.{
  Purges-pos, next-Sealed, next-same, read_back, read_back-Agrees, read_back-sector, record-Agrees,
  record_place-lem, replay-round,
}

module _ (lay : Layout) (me : Identity) (drive : Drive) (seal : PurgeCtl → ℕ) where
  module _ (good : (place : ℕ) → drive.reads place ≡ true) where
    replay-full :
        (k : ℕ) (r : Store)
        → last_purge_pos ≤ r.purge_pos
        → replay lay me drive (suc k) r ≡ finished r
    unfolding replay
    replay-full k r h = if-true (leb last_purge_pos r.purge_pos) (finished r) _ (ground arith)

    place-Agrees :
        (t r : Store) → Agrees t r → record_place lay me drive r ≡ record_place lay me drive t
    unfolding record_place
    place-Agrees t r a =
        ap (λ x. add32 (add32 (mul32 x size_of_chunk) r.purge_pos) last_cache_pos)
          (sym a.same_chunk)
        ∙ ap (λ x. add32 (add32 (mul32 t.chunk_no size_of_chunk) x) last_cache_pos) (sym a.same_pos)

    -- The rounds that replay the purges lead to a context with the log that the purges left.
    replays :
        {n : ℕ} {s : Store} {f : Flash} {t : Store} {g : Flash}
        → Purges lay me seal n s f t g
        → ((x : ℕ) → drive.flash x ≡ g x)
        → (r : Store) → Agrees s r
        → (r' : Store) × (Agrees t r'
            × ((k k' : ℕ) → k' ≡ n + k → replay lay me drive k' r ≡ replay lay me drive k r'))
    replays stop same r a = (r, (a, λ k k' h. ap (λ x. replay lay me drive x r) (omega arith)))
    replays {s = s} (between {s' = s'} e old rest) same r a =
        replays rest same r (Agrees-trans s' s r (Agrees-sym s s' e) a)
    replays {n} {s} {f} {t} {g} (purges {n = m} v rest) same r a =
        let place = record_place lay me drive r in
        let u = read_back lay me drive seal r place in
        let x = s.purge_pos + last_cache_pos in
        let e = after_purge-chunk lay me seal s in
        let p = purge_flash (execute_purge_cache seal s) f in
        let sector : u.cache_mem 0 ≡ seal (purge_ctl_of s) =
          read_back-sector lay me drive seal r place
          ∙ same place
          ∙ ap g (omega (arith, record_place-lem lay me drive seal s r a v, e))
          ∙ Purges-old lay me seal rest x (omega (arith, after_purge-pos lay me seal s v))
          ∙ ap p (omega (arith, e))
          ∙ purge-record lay me seal s f v in
        let b = read_back-Agrees lay me drive seal s r place a in
        let c = lay.purge_ctl (u.cache_mem 0) in
        let next : is_next_record lay me drive u c ≡ true =
          ap (λ y. is_next_record lay me drive u (lay.purge_ctl y)) sector
          ∙ next-Sealed lay me drive seal s u b v.sealed in
        let w =
          record-Agrees lay me drive seal s u c.ctl b v
            (λ i h. ap (λ y. (lay.purge_ctl y).ctl.lba i) sector ∙ v.sealed.lba i h) in
        let (r', (agrees, all)) = replays rest same (replay_record lay me drive u c.ctl) w in
        (
          r',
          (
            agrees,
            λ k k' h.
                let rounds : k' ≡ suc (m + k) = omega arith in
                ap (λ y. replay lay me drive y r) rounds
                ∙ replay-round lay me drive seal (m + k) r (omega (arith, a.same_pos, v.has_room))
                    (good place)
                ∙ if-true (is_next_record lay me drive u c)
                    (replay lay me drive (m + k) (replay_record lay me drive u c.ctl)) (finished u)
                    next
                ∙ all k (m + k) refl,
          ),
        )

    -- The last round of the loop.
    replay-last :
        (k : ℕ) (t r : Store)
        → Agrees t r
        → (t.purge_pos ≡ last_purge_pos)
          ⊎ (is_next_record lay me drive t
                (lay.purge_ctl (drive.flash (record_place lay me drive t)))
              ≡ false)
        → (r' : Store) × ((replay lay me drive (suc k) r ≡ finished r') × Agrees t r')
    replay-last k t r a (inl full) = (r, (replay-full k r (omega (arith, a.same_pos)), a))
    replay-last k t r a (inr other) = elim (dec_lt r.purge_pos last_purge_pos) [
      | no full ↦ (r, (replay-full k r (omega arith), a))
      | yes more ↦
          let place = record_place lay me drive r in
          let u = read_back lay me drive seal r place in
          let b = read_back-Agrees lay me drive seal t r place a in
          let at : u.cache_mem 0 ≡ drive.flash (record_place lay me drive t) =
            read_back-sector lay me drive seal r place ∙ ap drive.flash (place-Agrees t r a) in
          let no_record : is_next_record lay me drive u (lay.purge_ctl (u.cache_mem 0)) ≡ false =
            ap (λ y. is_next_record lay me drive u (lay.purge_ctl y)) at
            ∙ sym (
                next-same lay me drive seal t u
                  (lay.purge_ctl (drive.flash (record_place lay me drive t))) b)
            ∙ other in
          (
            u,
            (
              replay-round lay me drive seal k r more (good place)
                  ∙ if-false _ _ (finished u) no_record,
              b,
            ),
          )
    ]

    -- Where the drive fails no read and PURGE_CTL is read back as it was written: after any purges
    -- into the current chunk, if nothing at the next place is a record of the log, the second loop
    -- of DoRecovery1, from a context with the log before the purges, ends within its rounds
    -- with the log after them: the same map, chunk, place and sequence numbers.
    pub replay-Purges :
        {n : ℕ} {s : Store} {f : Flash} {t : Store} {g : Flash}
        → Purges lay me seal n s f t g
        → ((x : ℕ) → drive.flash x ≡ g x)
        → s.purge_pos ≤ last_purge_pos
        → (t.purge_pos ≡ last_purge_pos)
          ⊎ (is_next_record lay me drive t
                (lay.purge_ctl (drive.flash (record_place lay me drive t)))
              ≡ false)
        → (r : Store) → Agrees s r
        → (r' : Store) × ((replay lay me drive replay_rounds r ≡ finished r') × Agrees t r')
    replay-Purges {n} {s} {f} {t} p same h full r a =
        let (m, (b, all)) = replays p same r a in
        let (e, le) = Purges-pos lay me drive seal p h in
        let (r', (last, c)) = replay-last (511 - n) t m b full in
        (r', (all (suc (511 - n)) replay_rounds (omega arith) ∙ last, c))
