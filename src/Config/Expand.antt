-- ===== src/Config/Expand.antt =====
-- The endpoints of a port specification in expandConnectionSpecifier of yaml/src/yaml.cpp.
use superflow.Base.{
  get_elem?, ℕ, zero, suc, ◌+◌, ◌<◌, ◌≡◌, inl, inr, refl, ◌∙◌, Bool, true, false, ◌&&◌, List, [],
  ◌∷◌, map, length, Option, none, some, arith, ltb, if◌then◌else◌, Bool-cases, returns, throws,
  invalid_argument,
}
use superflow.Text.{Text}
use superflow.Config.{replica_ids, replica_id}
use superflow.Config.Links.{PortSpecification, Endpoint, expand}

-- Several ports on a replicated proxel
abbrev pub ambiguous : PortSpecification → ℕ → Bool
ambiguous spec n = ltb 1 n && ltb 1 (length spec.port_list)

abbrev pub with_name : Text → Option Text → Option Endpoint
with_name name none = none
with_name name (some p) = some (name, p)

-- The `i`-th endpoint of a specification: of the `i`-th replica, or with the `i`-th port
abbrev pub endpoint : PortSpecification → ℕ → ℕ → Option Endpoint
endpoint spec n i =
    if ltb 1 n
    then with_name (replica_id spec.proxel_id i) (get_elem? spec.port_list 0)
    else with_name spec.proxel_id (get_elem? spec.port_list i)

pub record Expanded (spec : PortSpecification) (n : ℕ) (xs : List Endpoint) : Type 0 where
  pub sized : length xs ≡ (if ltb 1 n then n else length spec.port_list)
  pub at : (i : ℕ) → i < length xs → get_elem? xs i ≡ endpoint spec n i

abbrev on_replicas : Text → Text → ℕ → ℕ → List Endpoint
on_replicas name port n idx = map (λ replica. (replica, port)) (replica_ids name n idx)

abbrev on_ports : Text → List Text → List Endpoint
on_ports name ports = map (λ port. (name, port)) ports

length-replicas : (name port : Text) (n idx : ℕ) → length (on_replicas name port n idx) ≡ n
unfolding replica_ids
length-replicas name port zero idx = refl
length-replicas name port (suc n) idx = omega (arith, length-replicas name port n (suc idx))

get-replicas :
    (name port : Text) (n idx i : ℕ)
    → i < n
    → get_elem? (on_replicas name port n idx) i ≡ some (replica_id name (idx + i), port)
unfolding replica_ids
get-replicas name port zero idx i h = absurd (omega arith)
get-replicas name port (suc n) idx zero h = let e : idx + 0 ≡ idx = omega arith in rw e
get-replicas name port (suc n) idx (suc i) h =
    let e : idx + suc i ≡ suc idx + i = omega arith in
    rw e (get-replicas name port n (suc idx) i (omega arith))

length-ports : (name : Text) (ports : List Text) → length (on_ports name ports) ≡ length ports
length-ports name [] = refl
length-ports name (p ∷ ports) = omega (arith, length-ports name ports)

get-ports :
    (name : Text) (ports : List Text) (i : ℕ)
    → get_elem? (on_ports name ports) i ≡ with_name name (get_elem? ports i)
get-ports name [] i = refl
get-ports name (p ∷ ports) zero = refl
get-ports name (p ∷ ports) (suc i) = get-ports name ports i

replicas-Expanded :
    (name p : Text) (ports : List Text) (n : ℕ)
    → ltb 1 n ≡ true
    → Expanded (record { proxel_id = name; port_list = p ∷ ports }) n (on_replicas name p n 0)
replicas-Expanded name p ports n b = record {
  sized = rw b (length-replicas name p n 0);
  at = λ i h.
      let e : 0 + i ≡ i = omega arith in
      rw b (get-replicas name p n 0 i (omega (arith, length-replicas name p n 0)) ∙ rw e);
}

ports-Expanded :
    (name : Text) (ports : List Text) (n : ℕ)
    → ltb 1 n ≡ false
    → Expanded (record { proxel_id = name; port_list = ports }) n (on_ports name ports)
ports-Expanded name ports n b = record {
  sized = rw b (length-ports name ports);
  at = λ i h. rw b (get-ports name ports i);
}

expand_cases :
    (name : Text) (ports : List Text) (n : ℕ)
    → 0 < length ports
    → ambiguous (record { proxel_id = name; port_list = ports }) n ≡ false
    → (xs : List Endpoint) × (expand (record { proxel_id = name; port_list = ports }) n
        ≡ returns xs)
      × (0 < length xs)
      × Expanded (record { proxel_id = name; port_list = ports }) n xs
unfolding expand
expand_cases name [] n h a = absurd (omega arith)
expand_cases name (p ∷ ports) n h a = elim (Bool-cases (ltb 1 n)) [
  | inl b ↦ (
    on_replicas name p n 0,
    ground arith,
    ground (arith, length-replicas name p n 0),
    replicas-Expanded name p ports n b,
  )
  | inr b ↦
      (on_ports name (p ∷ ports), single b ports, omega arith, ports-Expanded name (p ∷ ports) n b)
]
  where
    single :
        ltb 1 n ≡ false
        → (ports : List Text)
        → expand (record { proxel_id = name; port_list = p ∷ ports }) n
          ≡ returns (on_ports name (p ∷ ports))
    single b [] = ground arith
    single b (q ∷ ports) = ground arith

pub expand-Expanded :
    (spec : PortSpecification) (n : ℕ)
    → 0 < length spec.port_list
    → ambiguous spec n ≡ false
    → (xs : List Endpoint) × (expand spec n ≡ returns xs) × (0 < length xs) × Expanded spec n xs
expand-Expanded spec n h a = expand_cases spec.proxel_id spec.port_list n h a

pub expand-ambiguous :
    (spec : PortSpecification) (n : ℕ)
    → ambiguous spec n ≡ true
    → expand spec n ≡ throws invalid_argument
unfolding expand
expand-ambiguous spec n h = ground arith
