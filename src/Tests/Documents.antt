-- ===== src/Tests/Documents.antt =====
-- Documents that the tests read.
use superflow.Base.{
  ℕ, zero, suc, ◌-◌, true, false, List, [], ◌∷◌, length, Option, none, some, Outcome, returns,
  throws, runtime_error,
}
use superflow.Registry.{ProxelConfig}
use superflow.Text.{Text, text, text_key, same_text}
use superflow.Config.{Yaml}
use superflow.Config.Links.{ConnectionSpec}
use superflow.Config.Include.{Files}

-- A document of texts, sequences and maps
mutual
  pub data Doc : Type 0 where
    leaf : Text → Doc
    seq : Docs → Doc
    dict : Entries → Doc

  pub data Docs : Type 0 where
    no_doc : Docs
    also : Doc → Docs → Docs

  pub data Entries : Type 0 where
    no_entry : Entries
    entry : Text → Doc → Entries → Entries

abbrev pub find_entry : Text → Entries → Option Doc
find_entry key no_entry = none
find_entry key (entry k v es) = elim (same_text key k) [ true ↦ some v | false ↦ find_entry key es ]

abbrev pub entry_list : Entries → List (Doc × Doc)
entry_list no_entry = []
entry_list (entry k v es) = (leaf k, v) ∷ entry_list es

abbrev pub doc_list : Docs → List Doc
doc_list no_doc = []
doc_list (also d ds) = d ∷ doc_list ds

abbrev pub doc_at : ℕ → Docs → Doc
doc_at n no_doc = leaf []
doc_at zero (also d ds) = d
doc_at (suc n) (also d ds) = doc_at n ds

abbrev pub without_entry : Text → Entries → Entries
without_entry key no_entry = no_entry
without_entry key (entry k v es) = elim (same_text key k) [
  | true ↦ es
  | false ↦ entry k v (without_entry key es)
]

abbrev pub find_in : Text → Doc → Outcome (Option Doc)
find_in key (leaf t) = throws runtime_error
find_in key (seq ds) = returns none
find_in key (dict es) = returns (find_entry key es)

abbrev pub text_of : Doc → Outcome Text
text_of (leaf t) = returns t
text_of (seq ds) = throws runtime_error
text_of (dict es) = throws runtime_error

abbrev pub number_of : Doc → Outcome ℕ
number_of (leaf (c ∷ [])) = returns (c - 48)
number_of d = throws runtime_error

abbrev pub docs : Yaml Doc
docs = record {
  find = find_in;
  entries = λ d. elim d [ dict es ↦ entry_list es | _ ↦ [] ];
  items = λ d. elim d [ seq ds ↦ doc_list ds | _ ↦ [] ];
  item_at = λ n d. elim d [ seq ds ↦ doc_at n ds | other ↦ other ];
  size =
      λ d. elim d [ seq ds ↦ length (doc_list ds) | dict es ↦ length (entry_list es) | leaf t ↦ 0 ];
  is_map = λ d. elim d [ dict es ↦ true | _ ↦ false ];
  is_sequence = λ d. elim d [ seq ds ↦ true | _ ↦ false ];
  is_scalar = λ d. elim d [ leaf t ↦ true | _ ↦ false ];
  as_text = text_of;
  as_bool = λ d. elim d [ leaf t ↦ returns (same_text t (text "true")) | _ ↦ throws runtime_error ];
  as_number = number_of;
  put = λ k v d. elim d [ dict es ↦ dict (entry k v es) | other ↦ other ];
  remove = λ k d. elim d [ dict es ↦ dict (without_entry k es) | other ↦ other ];
}

-- `b: { type: T, replicate: 2, $x: [u, v] }`
abbrev pub b_properties : Doc
b_properties = dict (
    entry (text "type") (leaf (text "T")) (
      entry (text "replicate") (leaf (text "2")) (
        entry (text "$x") (seq (also (leaf (text "u")) (also (leaf (text "v")) no_doc))) no_entry)))

abbrev pub b_config : Text → Text → ProxelConfig Text Doc
b_config id x = record {
  id = id;
  type_name = text "T";
  properties = dict (entry (text "x") (leaf x) (entry (text "type") (leaf (text "T")) no_entry));
}

abbrev pub a_config : ProxelConfig Text Doc
a_config = record {
  id = text "a";
  type_name = text "T";
  properties = dict (entry (text "type") (leaf (text "T")) no_entry);
}

-- `a: { type: T }` and `b` as above
abbrev pub section : Doc
section = dict (entry (text "a") a_config.properties (entry (text "b") b_properties no_entry))

abbrev pub section_configs : List (ProxelConfig Text Doc)
section_configs =
    a_config ∷ b_config (text "b_0") (text "u") ∷ b_config (text "b_1") (text "v") ∷ []

abbrev pub pair_of : Text → Doc → Text → Doc → Doc
pair_of a p b q = seq (also (dict (entry a p no_entry)) (also (dict (entry b q no_entry)) no_doc))

-- `[a: [p, q], b: r]`
abbrev pub a_to_b : Doc
a_to_b =
    pair_of (text "a") (seq (also (leaf (text "p")) (also (leaf (text "q")) no_doc))) (text "b")
      (leaf (text "r"))

-- `[b: s, a: t]`
abbrev pub b_to_a : Doc
b_to_a = pair_of (text "b") (leaf (text "s")) (text "a") (leaf (text "t"))

abbrev pub root : Doc
root = dict (
    entry (text "Proxels") section (
      entry (text "Includes") (seq (also (leaf (text "more")) no_doc))
        (entry (text "Connections") (seq (also a_to_b no_doc)) no_entry)))

abbrev pub included : Doc
included = dict (
    entry (text "Proxels") (dict no_entry)
      (entry (text "Connections") (seq (also b_to_a no_doc)) no_entry))

abbrev pub one_file : Files Doc
one_file = record {
  load = λ f. returns (elim (same_text f (text "more")) [ true ↦ some included | false ↦ none ]);
  is_regular_file = λ f. same_text f (text "more");
  join_path = λ dir f. f;
  parent_path = λ f. [];
}

abbrev pub spec : Text → Text → Text → Text → ConnectionSpec
spec a p b q = record { lhs_name = a; lhs_port = p; rhs_name = b; rhs_port = q }
