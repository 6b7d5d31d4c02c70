-- ===== src/Rings/Receive/Ends.antt =====
-- The loop of `gotfunc` of arm/src/rings.cpp ends.
use a.Base.{ℕ, ◌+◌, ◌≤◌, ◌≡◌, refl, arith, ap, ◌∙◌, true, false, ltb, ◌⊎◌, inl, inr}
use a.Base.{Array, Option, none, some, ◌>>=◌}
use a.Ram.Bytes.{IsBytes}
use a.Types.{max_packet_size}
use a.Card.{Card}
use a.Rings.Receive.{rx_walk, rx_done, append_crc, store_frame, Walked}
use a.Rings.Receive.Walk.{Overruns, Overruns-none, rx_walk_returns}
use a.Rings.Receive.Bytes.{append_crc-IsBytes}

module _ (on_interrupt : Card → Card) (q : Array) (len : ℕ) (c : Card) where
  walked :
      len ≤ 4092
      → store_frame on_interrupt q len c ≡ (
          rx_walk (append_crc q len) (len + 4) (len + 5) 0 true c >>= λ w.
          some (rx_done on_interrupt w))
  unfolding store_frame
  walked l = let fits : ltb max_packet_size (len + 4) ≡ false = ground (arith, l) in rw fits refl

  -- For a frame of at most 4092 bytes the storing of gotfunc ends, whatever the descriptors say,
  -- if the frame and card memory hold bytes: it returns a card, or the walk, which has filled the
  -- chip's buffers before, comes to one of the chip's that ends beyond the 4096 bytes of tmp, and
  -- only then is it the fault of reading past tmp.
  pub store_frame_returns :
      IsBytes q
      → IsBytes c.boardram
      → len ≤ 4092
      → ((e : Card) × (store_frame on_interrupt q len c ≡ some e))
        ⊎ (Overruns (append_crc q len) (len + 4) 0 true c
            × (store_frame on_interrupt q len c ≡ none))
  store_frame_returns h b l =
      let after : Option Walked → Option Card = λ o. o >>= λ w. some (rx_done on_interrupt w) in
      elim (rx_walk_returns (append_crc q len) (len + 4) (len + 5) 0 true c
        (append_crc-IsBytes q len h) b (omega arith) (omega arith)) [
          | inl w ↦ inl (rx_done on_interrupt w.0, walked l ∙ ap after w.1)
          | inr o ↦
              inr (o, walked l ∙ ap after (Overruns-none (append_crc q len) (len + 4) (len + 5) o))
        ]
