-- ===== src/Connector/Ignored.antt =====
-- The packets that `handle_received_packet` only logs.
use riotsensors.Prelude.{
  ℕ, ◌≤◌, ◌≡◌, ◌≢◌, refl, ◌⊎◌, inl, inr, List, true, false, Option, none, some, arith, length, ◌==◌,
  ltb, not, ==_iff, if_both, if◌then◌else◌,
}
use riotsensors.Registry.{RegisteredLambda, get_registered_lambda_by_id}
use riotsensors.Packets.{Host, Doubles}
use riotsensors.Packets.Layout.{byte_at}
use riotsensors.Connector.State.{Connector, Memory, for_lambda}
use riotsensors.Connector.Handler.{
  on_registered, on_unregistered, on_result_int, on_result_double, on_result_string,
  on_result_error, handle_received_packet, dispatch,
}

-- The packet type is one that is sent to Linux, and the size is that of its structure.
abbrev pub HasSize : ℕ → ℕ → Type 0
HasSize tag size =
    ((tag ≡ 1) × (size ≡ 15))
    ⊎ ((tag ≡ 2) × (size ≡ 14))
    ⊎ ((tag ≡ 5) × (size ≡ 15))
    ⊎ ((tag ≡ 6) × (size ≡ 18))
    ⊎ ((tag ≡ 7) × (size ≡ 22))
    ⊎ ((tag ≡ 8) × (17 ≤ size))

-- A structure of a fixed size that does not fit is only logged.
wrong_size :
    {D : Type 0} (c : Connector D) (size n : ℕ) (rest : Option (Connector D))
    → size ≢ n
    → (if not (size == n) then some c else rest) ≡ some c
wrong_size c size n rest ne =
    if_both (not (size == n)) (some c) rest (some c) (λ _. refl) (λ e. absurd (ground arith))

module _ {D : Type 0} (h : Host) (d : Doubles D) (c : Connector D) (mem : Memory D)
    (bytes : List ℕ) where
  abbrev tag : ℕ
  tag = byte_at bytes 0

  -- The dispatch, where each branch that its tag reaches does nothing.
  dispatch_ignored :
      (tag ≡ 1 → on_registered c mem bytes ≡ some c)
      → (tag ≡ 2 → on_unregistered c bytes ≡ some c)
      → (tag ≡ 6 → on_result_int h d c bytes ≡ some c)
      → (tag ≡ 7 → on_result_double h d c bytes ≡ some c)
      → (tag ≡ 8 → on_result_string h d c mem bytes ≡ some c)
      → (tag ≡ 5 → on_result_error h d c bytes ≡ some c)
      → dispatch h d c mem tag bytes ≡ some c
  dispatch_ignored r u i f s e =
      if_both (tag == 1) _ _ (some c) (λ p. r ((==_iff tag 1).0 p))
        λ _.
          if_both (tag == 2) _ _ (some c) (λ p. u ((==_iff tag 2).0 p))
            λ _.
              if_both (tag == 6) _ _ (some c) (λ p. i ((==_iff tag 6).0 p))
                λ _.
                  if_both (tag == 7) _ _ (some c) (λ p. f ((==_iff tag 7).0 p))
                    λ _.
                      if_both (tag == 8) _ _ (some c) (λ p. s ((==_iff tag 8).0 p))
                        λ _. if_both (tag == 5) _ _ (some c) (λ p. e ((==_iff tag 5).0 p)) λ _. refl

  -- An empty packet, a packet of a type that is not sent to Linux, and one whose size is not
  -- that of its structure (for a string: smaller) leave the connector as it was.
  pub malformed_ignored :
      (length bytes ≡ 0) ⊎ ¬ HasSize (byte_at bytes 0) (length bytes)
      → handle_received_packet h d c mem bytes ≡ some c
  unfolding handle_received_packet on_registered on_unregistered on_result_int on_result_double
      on_result_string on_result_error
  malformed_ignored (inl empty) = rw empty
  malformed_ignored (inr bad) =
      if_both (ltb (length bytes) 1) _ _ (some c) (λ _. refl)
        λ _.
          dispatch_ignored (λ p. wrong_size c (length bytes) 15 _ (λ n. bad (inl (p, n))))
            (λ p. wrong_size c (length bytes) 14 _ (λ n. bad (inr (inl (p, n)))))
            (λ p. wrong_size c (length bytes) 18 _ (λ n. bad (inr (inr (inr (inl (p, n)))))))
            (λ p. wrong_size c (length bytes) 22 _ (λ n. bad (inr (inr (inr (inr (inl (p, n))))))))
            (λ p.
              if_both (ltb (length bytes) 17) _ _ (some c) (λ _. refl)
                (λ n. absurd (bad (inr (inr (inr (inr (inr (p, at_least n)))))))))
            (λ p. wrong_size c (length bytes) 15 _ (λ n. bad (inr (inr (inl (p, n))))))
    where
      at_least : ltb (length bytes) 17 ≡ false → 17 ≤ length bytes
      at_least n = ground arith

  -- A packet of any type but a registration, with a lambda id that is not registered, leaves
  -- the connector as it was, if there is memory for the copy of a string packet.
  pub unknown_ignored :
      byte_at bytes 0 ≢ 1
      → get_registered_lambda_by_id c.registry (byte_at bytes 1) ≡ none
      → mem.copy ≡ true
      → handle_received_packet h d c mem bytes ≡ some c
  unfolding handle_received_packet on_unregistered on_result_int on_result_double on_result_string
      on_result_error
  unknown_ignored ne unknown copied =
      if_both (ltb (length bytes) 1) _ _ (some c) (λ _. refl)
        λ _.
          dispatch_ignored (λ p. absurd (ne p)) (λ _. fixed 14 _) (λ _. fixed 18 _)
            (λ _. fixed 22 _)
            (λ _.
              if_both (ltb (length bytes) 17) _ _ (some c) (λ _. refl)
                λ _. if_both (not mem.copy) _ _ (some c) (λ e. cc (copied, e)) λ _. rw unknown)
            (λ _. fixed 15 _)
    where
      fixed :
          (n : ℕ) (f : RegisteredLambda ℕ → Option (Connector D))
          → (if not (length bytes == n)
              then some c
              else for_lambda c (get_registered_lambda_by_id c.registry (byte_at bytes 1)) f)
            ≡ some c
      fixed n f = if_both (not (length bytes == n)) _ _ (some c) (λ _. refl) (λ _. rw unknown)
