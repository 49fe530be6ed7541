-- ===== src/Config/Consistent.antt =====
-- The proxels that a configuration names in its connections and those that it configures.
use superflow.Base.{
  concat, ℕ, zero, suc, ◌≡◌, ◌⊎◌, refl, ap, ◌∙◌, true, false, List, [], ◌∷◌, ◌++◌, map, arith,
  Option, none, some, ltb, if◌then◌else◌, Bool-cases, inl, inr, returns,
}
use superflow.Text.{Text, text_key, same_text, same_text_eq}
use superflow.Map.{lookup}
use superflow.Registry.{ProxelConfig}
use superflow.Config.{Yaml, replica_id, replica_ids, all_proxel_configs}
use superflow.Config.Include.{Files, specs_of}
use superflow.Config.Replicas.{id_of}
use superflow.Config.Links.{contains_name, ConnectionSpec, replicas_for}
use superflow.Config.Names.{
  contains_name-append, all_named, all_named-append_left, all_named-append_right, all_named_self,
}
use superflow.Config.Entries.{
  Entry, ids_of, names_of, all_counts, Describes, configs-ids, all-names, all-counts,
}
use superflow.Config.Counts.{base, all_different, count_for, count_for_absent, lookup-all_counts}
use superflow.Config.Known.{reach, Within, connections-Within}

-- The text has the form of the id of a replica.
abbrev IsReplica : Text → Type 0
IsReplica x = (name : Text) × (i : ℕ) × (x ≡ replica_id name i)

abbrev number : Option ℕ → ℕ
number none = 1
number (some n) = n

-- The ids and the names of one entry
abbrev own_ids : Entry → List Text
own_ids e =
    if e.enabled then (if ltb 1 e.count then replica_ids e.name e.count 0 else e.name ∷ []) else []

abbrev own_names : Entry → List Text
own_names e =
    if e.enabled
    then (if ltb 1 e.count then replica_ids e.name e.count 0 else []) ++ e.name ∷ []
    else []

in_replica_ids :
    (x name : Text) (n idx : ℕ) → contains_name x (replica_ids name n idx) ≡ true → IsReplica x
unfolding contains_name replica_ids
in_replica_ids x name zero idx h = absurd (ground arith)
in_replica_ids x name (suc n) idx h = elim (Bool-cases (same_text x (replica_id name idx))) [
  | inl e ↦ (name, idx, (same_text_eq x (replica_id name idx)).0 e)
  | inr d ↦ in_replica_ids x name n (suc idx) (rw d at h)
]

abbrev OneOf : Text → Entry → Type 0
OneOf x e =
    ((e.enabled ≡ true) × (same_text x e.name ≡ true))
    ⊎ ((contains_name x (own_ids e) ≡ true) × IsReplica x)

own_names_cases : (x : Text) (e : Entry) → contains_name x (own_names e) ≡ true → OneOf x e
unfolding contains_name
own_names_cases x e h = elim (Bool-cases e.enabled) [
  | inr d ↦ absurd (ground arith)
  | inl en ↦ elim (Bool-cases (same_text x e.name)) [
    | inl s ↦ inl (en, s)
    | inr s ↦ elim (Bool-cases (ltb 1 e.count)) [
      | inr b ↦ absurd (ground arith)
      | inl b ↦
          let i : contains_name x (replica_ids e.name e.count 0) ≡ true =
            ground (arith, contains_name-append x (replica_ids e.name e.count 0) (e.name ∷ [])) in
          inr (rw (en, b) i, in_replica_ids x e.name e.count 0 i)
    ]
  ]
]

-- No entry has a name of the form of a replica's id.
abbrev pub NoReplicaNames : List Entry → Type 0
NoReplicaNames es = (name : Text) (i : ℕ) → contains_name (replica_id name i) (map base es) ≡ false

replica_absent :
    (x : Text) (es : List Entry)
    → NoReplicaNames es
    → IsReplica x
    → contains_name x (map base es) ≡ false
replica_absent x es none_named (name, i, e) = rw e (none_named name i)

-- An enabled name is the base name of an entry or the id of a replica.
names_of_cases :
    (x : Text) (es : List Entry)
    → contains_name x (names_of es) ≡ true
    → (contains_name x (map base es) ≡ true) ⊎ IsReplica x
unfolding names_of contains_name
names_of_cases x [] h = absurd (ground arith)
names_of_cases x (e ∷ es) h = elim (Bool-cases (contains_name x (own_names e))) [
  | inl o ↦ elim (own_names_cases x e o) [ inl (en, s) ↦ inl (rw s refl) | inr (i, r) ↦ inr r ]
  | inr o ↦
      elim (names_of_cases x es
        (ground (arith, contains_name-append x (own_names e) (names_of es)))) [
          | inl b ↦ inl (ground arith)
          | inr r ↦ inr r
        ]
]

tail_names : (e : Entry) (es : List Entry) → NoReplicaNames (e ∷ es) → NoReplicaNames es
unfolding contains_name
tail_names e es h name i = ground (arith, h name i)

own_reach :
    (x : Text) (e : Entry)
    → e.enabled ≡ true
    → same_text x e.name ≡ true
    → all_named (reach x (number (if ltb 1 e.count then some e.count else none))) (own_ids e) ≡ true
own_reach x e en s =
    let same = (same_text_eq x e.name).0 s in
    elim (Bool-cases (ltb 1 e.count)) [
      | inl b ↦ rw (same, en, b) (rw b (all_named_self (replica_ids e.name e.count 0)))
      | inr b ↦ rw (same, en, b) (all_named_self (e.name ∷ []))
    ]

one_named :
    (x : Text) (xs ys : List Text)
    → contains_name x xs ≡ true
    → all_named (x ∷ []) (xs ++ ys) ≡ true
unfolding all_named
one_named x xs ys h = ground (arith, contains_name-append x xs ys)

pub reach_known :
    (x : Text) (es : List Entry)
    → all_different (map base es) ≡ true
    → NoReplicaNames es
    → contains_name x (names_of es) ≡ true
    → all_named (reach x (number (count_for x es))) (ids_of es) ≡ true
unfolding names_of ids_of count_for contains_name
reach_known x [] d r h = absurd (ground arith)
reach_known x (e ∷ es) d r h = elim (Bool-cases (same_text x e.name)) [
  | inl s ↦ elim (Bool-cases e.enabled) [
    | inl en ↦ rw s (all_named-append_left _ (own_ids e) (ids_of es) (own_reach x e en s))
    | inr en ↦ elim (names_of_cases x es (rw en at h)) [
      | inl b ↦ absurd (ground (arith, (same_text_eq x e.name).0 s))
      | inr i ↦ absurd (ground (arith, replica_absent x (e ∷ es) r i))
    ]
  ]
  | inr s ↦ elim (Bool-cases (contains_name x (own_names e))) [
    | inl o ↦ elim (own_names_cases x e o) [
      | inl (en, t) ↦ absurd (ground arith)
      | inr (i, replica) ↦
          let absent = count_for_absent x es (replica_absent x es (tail_names e es r) replica) in
          rw s (rw absent (one_named x (own_ids e) (ids_of es) i))
    ]
    | inr o ↦ rw s (
        all_named-append_right _ (own_ids e) (ids_of es) (
          reach_known x es (ground arith) (tail_names e es r)
            (ground (arith, contains_name-append x (own_names e) (names_of es)))))
  ]
]

number_lem : (o : Option ℕ) → elim o [ none ↦ 1 | some n ↦ n ] ≡ number o
number_lem none = refl
number_lem (some n) = refl

described_known :
    (x : Text) (sections : List (List Entry))
    → all_different (map base (concat sections)) ≡ true
    → NoReplicaNames (concat sections)
    → contains_name x (names_of (concat sections)) ≡ true
    → all_named (reach x (replicas_for x (all_counts sections []))) (ids_of (concat sections))
      ≡ true
unfolding replicas_for lookup
described_known x sections different replica_free h =
    let counted =
      number_lem (lookup x (all_counts sections []))
      ∙ ap number (lookup-all_counts x sections [] different) in
    rw counted (reach_known x (concat sections) different replica_free h)

module _ {N : Type 0} (yaml : Yaml N) (files : Files N) where
  -- The sections are described by entries of different names, none of which has the form of the id
  -- of a replica. If createGraph reads the configurations and the connections, then every proxel
  -- that a connection names has a configuration.
  pub specs_of-Within :
      (nodes : List N) (sections : List (List Entry)) (all_connections : Option (List N))
      (cs : List (ProxelConfig Text N)) (specs : List ConnectionSpec)
      → Describes yaml nodes sections
      → all_different (map base (concat sections)) ≡ true
      → NoReplicaNames (concat sections)
      → all_proxel_configs yaml nodes ≡ returns cs
      → specs_of yaml files all_connections nodes ≡ returns specs
      → Within (map id_of cs) specs
  unfolding specs_of
  specs_of-Within nodes sections all_connections cs specs says different replica_free configured h =
      rw (configs-ids yaml cs says configured) (
        connections-Within (ids_of (concat sections)) (names_of (concat sections))
          (all_counts sections []) (λ x k. described_known x sections different replica_free k) yaml
          all_connections specs (rw (all-names yaml says, all-counts yaml [] says) at h))
