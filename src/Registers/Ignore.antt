-- ===== src/Registers/Ignore.antt =====
-- Properties that do not look at the chip: they read only what a daemon keeps beside it, and a write
-- of a register leaves them alone where the callbacks do.
use a.Base.{ℕ, ◌==◌, leb, if◌then◌else◌, Bool, true, false, not, ◌&&◌}
use a.Base.{
  Array, List, bit_and, has, Option, some, OnSome, OnSome-some, OnSome-bind, kept_if, Bool-cases,
  inl, inr,
}
use a.Types.{csr0_txon}
use a.Mac.{MacUnit}
use a.Card.{Card, csr0, with_csr0}
use a.Registers.{
  rethink, csr0_rethought, csr0_written, switch_on, chip_init, chip_init_mask, obey, demand,
  demand_done, write_csr0, write_stopped, write_other, chip_wput, int_and_enable,
}
use a.Registers.Survive.{Survives}

pub record Ignores (P : Card → Type 0) : Type 0 where
  pub chip :
      (c : Card) (csr fakemac ram buf : Array)
      (rap mode ladrf rlen rdra tlen tdra len tdr rdr iter : ℕ) (init : Bool) (mac : MacUnit)
      (frames : List (List ℕ))
      → P c
      → P (record c {
        csr = csr;
        rap = rap;
        am_initialized = init;
        am_mode = mode;
        am_ladrf = ladrf;
        am_rdr_rlen = rlen;
        am_rdr_rdra = rdra;
        am_tdr_tlen = tlen;
        am_tdr_tdra = tdra;
        tdr_offset = tdr;
        rdr_offset = rdr;
        fakemac = fakemac;
        boardram = ram;
        mac = mac;
        transmitbuffer = buf;
        transmitlen = len;
        loopback_iter = iter;
        sent = frames;
      })

pub Ignores-Survives : {P : Card → Type 0} → Ignores P → Survives P
Ignores-Survives ignores = record {
  reads =
      λ c ram buf len tdr rdr iter frames h. ignores.chip c _ _ _ _ _ _ _ _ _ _ _ _ _ _ _ _ _ _ h;
  touches = λ c w t h. ignores.chip c _ _ _ _ _ _ _ _ _ _ _ _ _ _ _ _ _ _ h;
}

module _ {P : Card → Type 0} (ignores : Ignores P) where
  chip_init-Ignores : (c : Card) → P c → P (chip_init c)
  unfolding chip_init chip_init_mask
  chip_init-Ignores c h = ignores.chip c _ _ _ _ _ _ _ _ _ _ _ _ _ _ _ _ _ _ h

  with_csr-Ignores :
      (csr : Array) (init : Bool) (c : Card)
      → P c
      → P (record c { csr = csr; am_initialized = init })
  with_csr-Ignores csr init c h = ignores.chip c _ _ _ _ _ _ _ _ _ _ _ _ _ _ _ _ _ _ h

  obey-Ignores : (oreg : ℕ) (c : Card) → P c → P (obey oreg c)
  unfolding obey
  obey-Ignores oreg c h =
      let d : Card = with_csr0 c (switch_on c.am_mode (csr0 c)) in
      let at_d : P d = with_csr-Ignores _ _ c h in
      kept_if P (has (csr0 c) 4 && not (has oreg 4)) (with_csr-Ignores _ _ c h) (
        kept_if P (has (csr0 c) 2 && not (has oreg 2) && has oreg 5)
          (kept_if P (has (csr0 d) 1 && not (has oreg 1))
            (with_csr-Ignores _ _ (chip_init d) (chip_init-Ignores d at_d)) at_d)
          (kept_if P (has (csr0 c) 1 && not (has oreg 1) && has oreg 4)
            (with_csr-Ignores _ _ (chip_init c) (chip_init-Ignores c h)) h))

  write_stopped-Ignores : (c : Card) (n v : ℕ) → P c → P (write_stopped c n v)
  unfolding write_stopped
  write_stopped-Ignores c n v h = kept_if P (has (csr0 c) 4) (with_csr-Ignores _ _ c h) h

  write_other-Ignores : (c : Card) (v : ℕ) → P c → P (write_other c v)
  unfolding write_other chip_init_mask
  write_other-Ignores c v h =
      (kept_if P (c.rap == 8) (ignores.chip c _ _ _ _ _ _ _ _ _ _ _ _ _ _ _ _ _ _ h) (
        kept_if P (c.rap == 9) (ignores.chip c _ _ _ _ _ _ _ _ _ _ _ _ _ _ _ _ _ _ h) (
          kept_if P (c.rap == 10) (ignores.chip c _ _ _ _ _ _ _ _ _ _ _ _ _ _ _ _ _ _ h) (
            kept_if P (c.rap == 11) (ignores.chip c _ _ _ _ _ _ _ _ _ _ _ _ _ _ _ _ _ _ h) (
              kept_if P (c.rap == 12) (ignores.chip c _ _ _ _ _ _ _ _ _ _ _ _ _ _ _ _ _ _ h) (
                kept_if P (c.rap == 13) (ignores.chip c _ _ _ _ _ _ _ _ _ _ _ _ _ _ _ _ _ _ h) (
                  kept_if P (c.rap == 14) (ignores.chip c _ _ _ _ _ _ _ _ _ _ _ _ _ _ _ _ _ _ h) (
                    kept_if P (c.rap == 15) (ignores.chip c _ _ _ _ _ _ _ _ _ _ _ _ _ _ _ _ _ _ h) (
                      kept_if P (c.rap == 24) (ignores.chip c _ _ _ _ _ _ _ _ _ _ _ _ _ _ _ _ _ _ h)
                        (kept_if P (c.rap == 25)
                          (ignores.chip c _ _ _ _ _ _ _ _ _ _ _ _ _ _ _ _ _ _ h)
                          (kept_if P (c.rap == 30)
                            (ignores.chip c _ _ _ _ _ _ _ _ _ _ _ _ _ _ _ _ _ _ h)
                            (kept_if P (c.rap == 31)
                              (ignores.chip c _ _ _ _ _ _ _ _ _ _ _ _ _ _ _ _ _ _ h)
                              (kept_if P (c.rap == 76)
                                (ignores.chip c _ _ _ _ _ _ _ _ _ _ _ _ _ _ _ _ _ _ h)
                                (kept_if P (c.rap == 78)
                                  (ignores.chip c _ _ _ _ _ _ _ _ _ _ _ _ _ _ _ _ _ _ h)
                                  (kept_if P (leb 4 c.rap) (with_csr-Ignores _ _ c h)
                                    h)))))))))))))))

  module _ (on_interrupt : Card → Card) (on_transmit : Card → Option Card)
      (reports : (c : Card) → P c → P (on_interrupt c))
      (transmits : (c : Card) → P c → OnSome P (on_transmit c)) where
    tried-Ignores :
        (b : Bool) (c d : Card) → P c → P d → OnSome P (if b then on_transmit c else some d)
    tried-Ignores true c d h k = transmits c h
    tried-Ignores false c d h k = OnSome-some k

    demand-Ignores : (c : Card) → P c → OnSome P (demand on_transmit c)
    unfolding demand demand_done
    demand-Ignores c h = elim (Bool-cases (has (csr0 c) 8)) [
      | inr e ↦ rw e (OnSome-some h)
      | inl e ↦ rw e (
          OnSome-bind P
            (tried-Ignores c.am_initialized _ c
              (kept_if P (not (has (csr0 c) csr0_txon)) (with_csr-Ignores _ _ c h) h) h)
            (λ d k. OnSome-some (with_csr-Ignores _ _ d k)))
    ]

    rethink-Ignores : (c : Card) → P c → P (rethink on_interrupt c)
    unfolding rethink
    rethink-Ignores c h =
        let d : Card = with_csr0 c (csr0_rethought (csr0 c)) in
        let at_d : P d = with_csr-Ignores _ _ c h in
        kept_if P (bit_and (csr0 d) int_and_enable == int_and_enable) (reports d at_d) at_d

    write_csr0-Ignores :
        (c : Card) (v : ℕ) → P c → OnSome P (write_csr0 on_interrupt on_transmit c v)
    unfolding write_csr0
    write_csr0-Ignores c v h =
        let w : Card = with_csr0 c (csr0_written (csr0 c) v) in
        OnSome-bind P (demand-Ignores _ (obey-Ignores (csr0 c) w (with_csr-Ignores _ _ c h)))
          (λ d k. OnSome-some (rethink-Ignores d k))

    -- A write of a register keeps what does not look at the chip.
    pub chip_wput-Ignores :
        (reg_offset v : ℕ) (c : Card)
        → P c
        → OnSome P (chip_wput on_interrupt on_transmit reg_offset v c)
    unfolding chip_wput
    chip_wput-Ignores reg_offset v c h =
        kept_if (OnSome P) (reg_offset == 2)
          (OnSome-some (ignores.chip c _ _ _ _ _ _ _ _ _ _ _ _ _ _ _ _ _ _ h))
          (kept_if (OnSome P) (leb 128 c.rap) (OnSome-some h) (
            kept_if (OnSome P) (c.rap == 0) (write_csr0-Ignores c v h) (
              kept_if (OnSome P) (c.rap == 1) (OnSome-some (write_stopped-Ignores c 1 _ h)) (
                kept_if (OnSome P) (c.rap == 2) (OnSome-some (write_stopped-Ignores c 2 _ h)) (
                  kept_if (OnSome P) (c.rap == 3) (OnSome-some (write_stopped-Ignores c 3 _ h))
                    (OnSome-some (write_other-Ignores c v h)))))))
