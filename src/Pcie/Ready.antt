-- ===== src/Pcie/Ready.antt =====
-- What the bring-up of the root port has done when it ends.
use yoga_slim7x_usb.Base.{
  ℕ, zero, suc, ◌+◌, get_or, ◌≡◌, refl, sym, ap, subst, ◌⊎◌, inl, inr, List, [], Option, none, Bool,
  true, false, Status, ok, err, positive, enodev, is_ok, demand, arith, Step, on_own, on_rest,
  Ended, Ended-if, always-Ended, Leads, ◌then_leads◌, if_cases, checked-cases, not,
}
use yoga_slim7x_usb.Pcie.{X1Bridge, no_bridge, PciDevice}
use yoga_slim7x_usb.Pcie.Root.{
  header_words, header_length, root_header_admitted, root_walk, first_pointer, x1_root_validate,
}
use yoga_slim7x_usb.Pcie.Probe.{
  PcieKernel, Owned, outside, enable_clocks, validate, host_probe, fixup_verdict, power_up,
  bring_up, kept_error, owned_probe,
}
use yoga_slim7x_usb.Pcie.Endpoint.{IsClassed, Marks, fixup_all-Marks}

-- What an owner does after its bring-up.
abbrev pub Late : Type 0
Late = Bool × Bool × Bool × Bool × Option ℕ × Bool

abbrev pub late : X1Bridge → Late
late b = (b.ready, b.train_attempted, b.trained, b.downstream, b.endpoint, b.endpoint_validated)

-- An owner that is not ready and has done nothing that needs it.
abbrev pub IsFresh : X1Bridge → Type 0
IsFresh b = late b ≡ (false, false, false, false, none, false)

-- What an owner must have to be ready.
abbrev pub IsPrepared : X1Bridge → Type 0
IsPrepared b =
    (b.enabled ≡ 8)
    × (b.powered ≡ true)
    × (b.root_validated ≡ true)
    × (b.root_fixup_done ≡ true)
    × IsClassed b

-- The owner on the way there, without an error.
record Counted (n : ℕ) (b : X1Bridge) : Type 0 where
  fresh : IsFresh b
  sound : b.error ≡ ok
  clocks : b.enabled ≡ n

record Powered (b : X1Bridge) : Type 0 where
  counted : Counted 8 b
  powered : b.powered ≡ true

record Validated (b : X1Bridge) : Type 0 where
  powered : Powered b
  validated : b.root_validated ≡ true
  classed : IsClassed b

record Fixed (b : X1Bridge) : Type 0 where
  validated : Validated b
  fixed : b.root_fixup_done ≡ true

-- The end of a bring-up that succeeds.
pub record IsReady (b : X1Bridge) : Type 0 where
  pub sound : b.error ≡ ok
  pub prepared : IsPrepared b
  pub idle : late b ≡ (true, false, false, false, none, false)

-- The end of one that fails, once its error is kept.
pub record IsFailed (b : X1Bridge) : Type 0 where
  pub fresh : IsFresh b
  pub broken : is_ok b.error ≡ false

IsClassed-lem :
    (b : X1Bridge) (h : List ℕ)
    → root_header_admitted h ≡ true
    → IsClassed (record b { root_class = get_or h 2 0; root_validated = true })
unfolding root_header_admitted
IsClassed-lem b h e = ground arith

marked-Validated : (b c : X1Bridge) → Validated b → Marks b c → Validated c
marked-Validated b c h (inl p) = subst Validated (sym p) h
marked-Validated b c h (inr p) =
    let q = h.powered in
    subst Validated (sym p) (record {
      powered = record {
        counted = record {
          fresh = q.counted.fresh;
          sound = q.counted.sound;
          clocks = q.counted.clocks;
        };
        powered = q.powered;
      };
      validated = h.validated;
      classed = h.classed;
    })

module _ {S : Type 0} (k : PcieKernel S) where
  abbrev On : (X1Bridge → Type 0) → Owned S → Type 0
  On Q t = Q t.0

  outside-Leads :
      (Q : X1Bridge → Type 0) (f : Step S)
      → ((b : X1Bridge) → Q b → IsFresh b)
      → Leads (On Q) (outside k f) (On Q) (On IsFresh)
  unfolding outside on_rest
  outside-Leads Q f w = record {
    runs = λ t h.
        always-Ended (On Q) (On Q) (On IsFresh) (outside k f t) h (λ u q. q) (λ u q. w u.0 q);
  }

  own-Leads :
      (P Q : X1Bridge → Type 0) (g : X1Bridge → X1Bridge)
      → ((b : X1Bridge) → P b → Q (g b))
      → Leads (On P) (on_own g) (On Q) (On IsFresh)
  unfolding on_own
  own-Leads P Q g w = record { runs = λ t h. w t.0 h }

  enable_clocks-Leads :
      (left i : ℕ)
      → Leads (On (Counted i)) (enable_clocks k left i) (On (Counted (i + left))) (On IsFresh)
  unfolding enable_clocks
  enable_clocks-Leads zero i = record {
    runs = λ t h. subst (λ (n : ℕ). Counted n t.0) (omega arith) h;
  }
  enable_clocks-Leads (suc left) i = record {
    runs = λ t h.
        subst (λ (n : ℕ). Ended (On (Counted n)) (On IsFresh) (enable_clocks k (suc left) i t))
          (omega arith)
          ((outside-Leads (Counted i) (k.enable_clock i) (λ b c. c.fresh)
              then_leads own-Leads (Counted i) (Counted (i + 1))
                  (λ b. record b { enabled = b.enabled + 1 })
                  (λ b c.
                    let e = c.clocks in
                    record { fresh = c.fresh; sound = c.sound; clocks = omega (arith, e) })
              then_leads enable_clocks-Leads left (i + 1)).runs
            t h);
  }

  validate-Leads :
      (P : X1Bridge → Type 0)
      → ((b : X1Bridge) → P b → Powered b)
      → Leads (On P) (validate k) (On Validated) (On IsFresh)
  unfolding validate x1_root_validate
  validate-Leads P w = record {
    runs = λ t h.
        let (words, s) = header_words k.io header_length 0 t.1.1 in
        let p = w t.0 h in
        let E = λ (r : Status × (X1Bridge × S)).
          Ended (On Validated) (On IsFresh) (r.0, (r.1.0, (t.1.0, r.1.1))) in
        if_cases E (not (root_header_admitted words)) _ _ (λ _. p.counted.fresh)
          (λ e.
            checked-cases E (root_walk k.io 48 [] (first_pointer words) 0 s) _ _
              (λ u _. record {
                powered = record {
                  counted = record {
                    fresh = p.counted.fresh;
                    sound = p.counted.sound;
                    clocks = p.counted.clocks;
                  };
                  powered = p.powered;
                };
                validated = refl;
                classed = IsClassed-lem t.0 words (ground arith);
              })
              (λ ret u _ n. failed_lem ret (t.0, (t.1.0, u)) n p.counted.fresh));
  }
    where
      failed_lem :
          (ret : Status) (t : Owned S)
          → is_ok ret ≡ false
          → IsFresh t.0
          → Ended (On Validated) (On IsFresh) (ret, t)
      failed_lem ok t n h = ground arith
      failed_lem (err e) t n h = h
      failed_lem (positive n) t e h = h

  host_probe-Leads : Leads (On Validated) (host_probe k) (On Validated) (On IsFresh)
  unfolding host_probe
  host_probe-Leads = record {
    runs = λ t h.
        let (found, s) = (k.host_probe t.1.1).1 in
        let v = marked-Validated t.0 _ h (fixup_all-Marks found t.0 h.classed) in
        always-Ended (On Validated) (On Validated) (On IsFresh) (host_probe k t) v (λ u q. q)
          (λ u q. q.powered.counted.fresh);
  }

  fixup_verdict-Leads : Leads (On Validated) (fixup_verdict k) (On Fixed) (On IsFresh)
  unfolding fixup_verdict demand
  fixup_verdict-Leads = record {
    runs = λ t h.
        Ended-if (On Fixed) (On IsFresh) t.0.root_fixup_done enodev t
          (λ e. record { validated = h; fixed = e }) (λ e. h.powered.counted.fresh);
  }

  power_up-Leads : Leads (On (Counted 0)) (power_up k) (On Powered) (On IsFresh)
  unfolding power_up
  power_up-Leads =
      outside-Leads (Counted 0) _ (λ b c. c.fresh)
      then_leads outside-Leads (Counted 0) _ (λ b c. c.fresh)
      then_leads enable_clocks-Leads 8 0
      then_leads outside-Leads (Counted 8) k.set_mem_bandwidth (λ b c. c.fresh)
      then_leads outside-Leads (Counted 8) k.set_cfg_bandwidth (λ b c. c.fresh)
      then_leads own-Leads (Counted 8) Powered (λ b. record b { powered = true })
          (λ b c. record {
            counted = record { fresh = c.fresh; sound = c.sound; clocks = c.clocks };
            powered = refl;
          })

  bring_up-Leads : Leads (On (Counted 0)) (bring_up k) (On IsReady) (On IsFresh)
  unfolding bring_up
  bring_up-Leads =
      power_up-Leads
      then_leads outside-Leads Powered _ (λ b p. p.counted.fresh)
      then_leads outside-Leads Powered _ (λ b p. p.counted.fresh)
      then_leads outside-Leads Powered _ (λ b p. p.counted.fresh)
      then_leads validate-Leads Powered (λ b p. p)
      then_leads outside-Leads Validated _ (λ b v. v.powered.counted.fresh)
      then_leads validate-Leads Validated (λ b v. v.powered)
      then_leads host_probe-Leads
      then_leads fixup_verdict-Leads
      then_leads own-Leads Fixed IsReady (λ b. record b { ready = true })
          (λ b f.
            let v = f.validated in
            let p = v.powered in
            record {
              sound = p.counted.sound;
              prepared = (p.counted.clocks, p.powered, v.validated, f.fixed, v.classed);
              idle = ap (λ (l : Late). (true, l.1, l.2, l.3, l.4, l.5)) p.counted.fresh;
            })

  -- Whatever the kernel and the port answer, a probe that has set the owner leaves it ready, or with
  -- its error.
  pub owned_probe-lem :
      (r : List PciDevice × S) → IsReady (owned_probe k r).0 ⊎ IsFailed (owned_probe k r).0
  unfolding owned_probe
  owned_probe-lem r =
      let start : Counted 0 (record no_bridge { attempted = true }) = record {
        fresh = refl;
        sound = refl;
        clocks = refl;
      } in
      end _ (bring_up-Leads.runs (record no_bridge { attempted = true }, r) start)
    where
      end :
          (q : Status × Owned S)
          → Ended (On IsReady) (On IsFresh) q
          → IsReady (kept_error k q).0 ⊎ IsFailed (kept_error k q).0
      end (ok, t) h = inl h
      end (err e, (b, t)) h = inr (record { fresh = h; broken = refl })
      end (positive n, (b, t)) h = inr (record { fresh = h; broken = refl })
