-- ===== src/Connector/Answers.antt =====
-- What the two call functions answer, by the lookup, the cache policy, the cache and the wait.
use riotsensors.Prelude.{
  ℕ, ◌<◌, ◌≡◌, ◌≢◌, refl, ◌∙◌, ◌⊎◌, inl, inr, List, true, false, Option, none, some, arith, ◌==◌,
  ==_iff, Bool-cases, get_elem?,
}
use riotsensors.Constants.{rs_call_cache, rs_call_notfound, rs_call_wrongtype, rs_call_cache_empty}
use riotsensors.Registry.{
  RegisteredLambda, get_registered_lambda_by_id, get_registered_lambda_by_name,
}
use riotsensors.Registry.Lookup.{find_name_sound}
use riotsensors.Registry.Contract.{by_id-slot}
use riotsensors.Packets.{Host, Doubles}
use riotsensors.Connector.State.{LinuxLambda, Connector}
use riotsensors.Connector.Call.{
  Reply, Wait, check_lambda_cache, reply, call_by_id_request, call_by_name_request, send_and_wait,
  cache_or_wait, call_lambda, call_lambda_by_id, call_lambda_by_name,
}
use riotsensors.Connector.Invariant.{IsReady, IsValid, read_IsReady, if_ready-IsReady}

module _ {D : Type 0} (h : Host) (d : Doubles D) (c : Connector D) (expected_type : ℕ)
    (request : List ℕ → Option (List ℕ)) (w : Wait D) (found : Option (RegisteredLambda ℕ)) where
  -- The ways in which a call is answered. All but the last send nothing and change nothing.
  pub data Answers (answer : Option (Connector D × Reply D)) : Type 0 where
    not_found : found ≡ none → answer ≡ reply c rs_call_notfound none → Answers answer
    wrong_type :
        (l : RegisteredLambda ℕ)
        → found ≡ some l
        → l.type ≢ expected_type
        → answer ≡ reply c rs_call_wrongtype none
        → Answers answer
    from_cache :
        (l : RegisteredLambda ℕ) (a : LinuxLambda D)
        → found ≡ some l
        → l.type ≡ expected_type
        → (l.cache ≡ 2) ⊎ (l.cache ≡ 3)
        → get_elem? c.heap l.arg ≡ some a
        → a.data_cached ≡ true
        → answer ≡ reply c rs_call_cache (some a.ret)
        → Answers answer
    cache_empty :
        (l : RegisteredLambda ℕ) (a : LinuxLambda D)
        → found ≡ some l
        → l.type ≡ expected_type
        → l.cache ≡ 3
        → get_elem? c.heap l.arg ≡ some a
        → a.data_cached ≡ false
        → answer ≡ reply c rs_call_cache_empty none
        → Answers answer
    asks :
        (l : RegisteredLambda ℕ) (a : LinuxLambda D)
        → found ≡ some l
        → l.type ≡ expected_type
        → l.cache ≢ 3
        → get_elem? c.heap l.arg ≡ some a
        → (l.cache ≡ 2 → a.data_cached ≡ false)
        → answer ≡ send_and_wait h d c l request w w.request
        → Answers answer

apart : (n a b : ℕ) → n ≡ a → a < b → n ≢ b
apart n a b e lt e' = omega arith

module _ {D : Type 0} (h : Host) (d : Doubles D) (c : Connector D) (expected_type : ℕ)
    (request : List ℕ → Option (List ℕ)) (w : Wait D) where
  policy-Answers :
      (l : RegisteredLambda ℕ) (a : LinuxLambda D)
      → l.type ≡ expected_type
      → get_elem? c.heap l.arg ≡ some a
      → IsReady a.wait_result
      → Answers h d c expected_type request w (some l) (cache_or_wait h d c l request w (some a))
  unfolding check_lambda_cache
  policy-Answers l a typed here ok = elim (Bool-cases (l.cache == 1)) [
    | inl ignored ↦
        let one : l.cache ≡ 1 = (==_iff _ _).0 ignored in
        rw ignored (
          asks l a refl typed (apart l.cache 1 3 one (omega arith)) here
            (λ e. absurd (apart l.cache 1 2 one (omega arith) e))
            (if_ready-IsReady a.wait_result _ ok))
    | inr kept ↦ elim (Bool-cases (l.cache == 2)) [
      | inl once ↦
          let two : l.cache ≡ 2 = (==_iff _ _).0 once in
          elim (Bool-cases a.data_cached) [
            | inl hit ↦ rw (kept, once, hit) (from_cache l a refl typed (inl two) here hit refl)
            | inr miss ↦
                rw (kept, once, miss)
                  (asks l a refl typed (apart l.cache 2 3 two (omega arith)) here (λ _. miss)
                    (if_ready-IsReady a.wait_result _ ok))
          ]
      | inr many ↦
          let not_two : l.cache ≢ 2 = λ e. cc (many, (==_iff _ _).1 e) in
          elim (Bool-cases (l.cache == 3)) [
            | inl only ↦
                let three : l.cache ≡ 3 = (==_iff _ _).0 only in
                elim (Bool-cases a.data_cached) [
                  | inl hit ↦
                      rw (kept, many, only, hit)
                        (from_cache l a refl typed (inr three) here hit refl)
                  | inr miss ↦
                      rw (kept, many, only, miss) (cache_empty l a refl typed three here miss refl)
                ]
            | inr other ↦
                rw (kept, many, other)
                  (asks l a refl typed (λ e. cc (other, (==_iff _ _).1 e)) here
                    (λ e. absurd (not_two e)) (if_ready-IsReady a.wait_result _ ok))
          ]
    ]
  ]

  call_lambda-Answers :
      (found : Option (RegisteredLambda ℕ))
      → ((l : RegisteredLambda ℕ)
          → found ≡ some l
          → (a : LinuxLambda D) × (get_elem? c.heap l.arg ≡ some a) × IsReady a.wait_result)
      → Answers h d c expected_type request w found
          (call_lambda h d c expected_type request w found)
  call_lambda-Answers none _ = not_found refl refl
  call_lambda-Answers (some l) read = elim (Bool-cases (l.type == expected_type)) [
    | inr other ↦ rw other (wrong_type l refl (λ e. cc (other, (==_iff _ _).1 e)) refl)
    | inl same ↦
        let (a, here, ok) = read l refl in
        rw (same, here) (policy-Answers l a ((==_iff _ _).0 same) here ok)
  ]

module _ {D : Type 0} (h : Host) (d : Doubles D) (c : Connector D) (v : IsValid c) where
  by_name_at :
      (name : List ℕ) (l : RegisteredLambda ℕ)
      → get_registered_lambda_by_name c.registry name ≡ some l
      → (i : ℕ) × (get_registered_lambda_by_id c.registry i ≡ some l)
  unfolding get_registered_lambda_by_name
  by_name_at name l found =
      let (i, _, e, _) = find_name_sound c.registry.counter c.registry.slots name found in
      (i, by_id-slot c.registry i v.registry ∙ e)

  -- In a valid connector `call_lambda_by_id` is answered in one of five ways, each under its
  -- condition: RS_CALL_NOTFOUND without a lambda, RS_CALL_WRONGTYPE for another type,
  -- RS_CALL_CACHE and the cached value for CALL_ONCE or ONLY with a cached value,
  -- RS_CALL_CACHE_EMPTY for ONLY without one, all these without a packet or a change of state,
  -- and otherwise what sending the request and waiting returns.
  pub call_lambda_by_id-Answers :
      (id expected_type : ℕ) (w : Wait D)
      → Answers h d c expected_type
          (λ _. some (call_by_id_request id expected_type))
          w
          (get_registered_lambda_by_id c.registry id)
          (call_lambda_by_id h d c id expected_type w)
  unfolding call_lambda_by_id
  call_lambda_by_id-Answers id expected_type w =
      call_lambda-Answers h d c expected_type _ w (get_registered_lambda_by_id c.registry id)
        (read_IsReady c v id)

  -- In a valid connector `call_lambda_by_name` is answered in one of the five ways of
  -- `Answers`, each under its condition on the lookup by name, the type, the cache policy and
  -- the cache: only the last sends a packet and waits.
  pub call_lambda_by_name-Answers :
      (name : List ℕ) (expected_type : ℕ) (w : Wait D)
      → Answers h d c expected_type
          (λ block. call_by_name_request block name expected_type)
          w
          (get_registered_lambda_by_name c.registry name)
          (call_lambda_by_name h d c name expected_type w)
  unfolding call_lambda_by_name
  call_lambda_by_name-Answers name expected_type w =
      call_lambda-Answers h d c expected_type _ w (get_registered_lambda_by_name c.registry name)
        (λ l found. let (i, at) = by_name_at name l found in read_IsReady c v i l at)
