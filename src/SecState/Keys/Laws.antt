-- ===== src/SecState/Keys/Laws.antt =====
-- What FACTORY_INIT of fw/lms_sec_state.c leaves alone.
use sec_lms.Prelude.{ℕ, ◌≡◌, refl, Bool, not, List, Option, none, some, take, if_cases, ◌∙◌}
use sec_lms.SecState.{Build, Device, Sec, Code}
use sec_lms.SecState.Keys.{
  keep_blob, wrap_into, load_keys, sec_factory_init, fe_helper, i_len, seed_len, counted,
}

module _ {H : Type 0} where
  -- The slots, the state and the counter are as they were.
  pub record Quiet (s t : Sec H) : Type 0 where
    pub a : t.a.bytes ≡ s.a.bytes
    pub b : t.b.bytes ≡ s.b.bytes
    pub state : t.state ≡ s.state
    pub ctr : t.ctr ≡ s.ctr

  keep_blob-Quiet : (s : Sec H) (r : Option (List ℕ)) → Quiet s (keep_blob s r).0
  unfolding keep_blob
  keep_blob-Quiet s none = record { a = refl; b = refl; state = refl; ctr = refl }
  keep_blob-Quiet s (some w) = record { a = refl; b = refl; state = refl; ctr = refl }

  module _ (dev : Device H) where
    wrap_into-Quiet : (s t : Sec H) → Quiet s t → Quiet s (wrap_into dev t).0
    unfolding wrap_into
    wrap_into-Quiet s t q =
        let k = keep_blob-Quiet (record t { hw = (dev.wrap_seed t.hw).0 }) (dev.wrap_seed t.hw).1 in
        record { a = k.a ∙ q.a; b = k.b ∙ q.b; state = k.state ∙ q.state; ctr = k.ctr ∙ q.ctr }

    pub sec_factory_init-Quiet :
        (build : Build) (s : Sec H) (I : List ℕ) → Quiet s (sec_factory_init dev build s I).0
    unfolding sec_factory_init load_keys
    sec_factory_init-Quiet build s I =
        if_cases P (not build.test_mode) (λ _. same s refl refl refl refl)
          λ _.
            if_cases P s.factory_locked (λ _. same s refl refl refl refl)
              λ _.
                if_cases P (not loaded.1) (λ _. same loaded.0 refl refl refl refl)
                  λ _.
                    if_cases P (not seeded.1) (λ _. same ready refl refl refl refl)
                      λ _.
                        if_cases P (not (wrap_into dev ready).1) (λ _. wrapped)
                          (λ _. same _ wrapped.a wrapped.b wrapped.state wrapped.ctr)
      where
        P : Sec H × Code → Type 0
        P r = Quiet s r.0

        same :
            (t : Sec H)
            → t.a.bytes ≡ s.a.bytes
            → t.b.bytes ≡ s.b.bytes
            → t.state ≡ s.state
            → t.ctr ≡ s.ctr
            → Quiet s t
        same t a b state ctr = record { a = a; b = b; state = state; ctr = ctr }

        loaded : Sec H × Bool
        loaded = load_keys dev (record s { helper = fe_helper; key_I = take i_len I })

        seeded : H × Bool
        seeded = dev.seed_load_test loaded.0.hw 0 (counted 0 seed_len)

        ready : Sec H
        ready = record (loaded.0) { hw = seeded.0 }

        wrapped : Quiet s (wrap_into dev ready).0
        wrapped = wrap_into-Quiet s ready (record { a = refl; b = refl; state = refl; ctr = refl })
