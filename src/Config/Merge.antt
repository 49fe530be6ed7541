-- ===== src/Config/Merge.antt =====
-- createGraph and generateDOTFile read the same connections (yaml/src/yaml.cpp).
use superflow.Base.{
  ◌≡◌, refl, sym, ap, ◌∙◌, List, [], ◌∷◌, ◌++◌, append_assoc, append-nil, Option, some, Outcome,
  returns, throws, >>=-returns, arith, invalid_argument, ℕ, true,
}
use superflow.Map.{Map}
use superflow.Registry.{ProxelConfig}
use superflow.Text.{Text, text}
use superflow.Config.{
  Yaml, proxel_sections, all_proxel_configs, all_proxel_names, all_replicas, collect,
}
use superflow.Config.Links.{ConnectionSpec, connections}
use superflow.Config.Include.{
  Files, add_connections, open_included, required_connections, optional_items, read_included,
  includes, specs_of, read_graph, open_by_path, open_included_files, all_proxel_sections,
  gather_connections, get_all_connections,
}

module _ {N : Type 0} (yaml : Yaml N) (files : Files N) (dir : Text) (paths : List (List Text))
    (agree : (f : Text) → open_by_path yaml files dir f ≡ open_included yaml files dir f) where
  -- What the loop of createGraph reads, as the loops of generateDOTFile find it
  record SameRead (entries connections_before sections_before : List N)
      (connections_after : Option (List N)) (sections_after : List N) : Type 0 where
    roots : List N
    sections : List N
    opened : open_included_files yaml files dir entries ≡ returns roots
    found : all_proxel_sections yaml files roots paths ≡ returns sections
    appended : sections_before ++ sections ≡ sections_after
    gathered :
        gather_connections yaml files roots (some connections_before) ≡ returns connections_after

  optional-required :
      (node : N) {more : List N}
      → required_connections yaml files node ≡ returns more
      → optional_items yaml files (text "Connections") node ≡ returns (some more)
  unfolding required_connections optional_items
  optional-required node h = ground arith

  step-SameRead :
      (entry node : N) (entries before sections more its : List N) (filename : Text)
      {after : Option (List N)} {all : List N}
      → yaml.as_text entry ≡ returns filename
      → open_included yaml files dir filename ≡ returns node
      → required_connections yaml files node ≡ returns more
      → proxel_sections yaml node paths ≡ returns its
      → SameRead entries (before ++ more) (sections ++ its) after all
      → SameRead (entry ∷ entries) before sections after all
  unfolding open_included_files all_proxel_sections gather_connections add_connections
  step-SameRead entry node entries before sections more its filename t o m p rest = record {
    roots = node ∷ rest.roots;
    sections = its ++ rest.sections;
    opened = rw (t, agree filename, o, m, rest.opened) refl;
    found = rw (p, rest.found) refl;
    appended = sym (append_assoc sections its rest.sections) ∙ rest.appended;
    gathered = rw (optional-required node m) rest.gathered;
  }

  read-SameRead :
      (entries before sections : List N) {after : Option (List N)} {all : List N}
      → read_included yaml files dir paths entries (some before) sections ≡ returns (after, all)
      → SameRead entries before sections after all
  unfolding read_included open_included_files all_proxel_sections gather_connections add_connections
  read-SameRead [] before sections {after} {all} h = record {
    roots = [];
    sections = [];
    opened = refl;
    found = refl;
    appended = append-nil sections ∙ ground arith;
    gathered = ground arith;
  }
  read-SameRead (entry ∷ entries) before sections {after} {all} h =
      let (filename, t, h1) = >>=-returns (yaml.as_text entry) _ h in
      let (node, o, h2) = >>=-returns (open_included yaml files dir filename) _ h1 in
      let (more, m, h3) = >>=-returns (required_connections yaml files node) _ h2 in
      let (its, p, h4) = >>=-returns (proxel_sections yaml node paths) _ h3 in
      step-SameRead entry node entries before sections more its filename t o m p
        (read-SameRead entries (before ++ more) (sections ++ its) h4)

  same-connections :
      (root connection : N) (entries more sections : List N) (after : Option (List N))
      (all : List N) {specs : List ConnectionSpec}
      → optional_items yaml files (text "Connections") root ≡ returns (some (connection ∷ more))
      → proxel_sections yaml root paths ≡ returns sections
      → specs_of yaml files after all ≡ returns specs
      → SameRead entries (connection ∷ more) sections after all
      → (roots : List N) × (open_included_files yaml files dir entries ≡ returns roots)
        × (get_all_connections yaml files (root ∷ roots) paths ≡ returns specs)
  unfolding get_all_connections gather_connections all_proxel_sections add_connections
  same-connections root connection entries more sections after all c p o same =
      (same.roots, same.opened, rw (c, same.gathered, p, same.found, same.appended) o)

  specs-of-pair :
      {configs : List (ProxelConfig Text N)} {out specs : List ConnectionSpec}
      {made : List (ProxelConfig Text N)}
      → ◌≡◌ {A = Outcome (List (ProxelConfig Text N) × List ConnectionSpec)}
          (returns (made, out))
          (returns (configs, specs))
      → out ≡ specs
  specs-of-pair e = cc

  -- A configuration that createGraph reads, from a root with at least one connection, and whose
  -- included files both find at the same paths: generateDOTFile reads the same connections.
  pub read_graph-get_all_connections :
      (root connection : N) (entries more : List N) {configs : List (ProxelConfig Text N)}
      {specs : List ConnectionSpec}
      → includes yaml files root ≡ returns entries
      → optional_items yaml files (text "Connections") root ≡ returns (some (connection ∷ more))
      → read_graph yaml files dir paths root ≡ returns (configs, specs)
      → (roots : List N) × (open_included_files yaml files dir entries ≡ returns roots)
        × (get_all_connections yaml files (root ∷ roots) paths ≡ returns specs)
  unfolding read_graph
  read_graph-get_all_connections root connection entries more {configs} {specs} i c h =
      let (sections, s, h1) = >>=-returns (proxel_sections yaml root paths) _ h in
      let ((after, all), r, h2) =
        >>=-returns (read_included yaml files dir paths entries (some (connection ∷ more)) sections)
          _ (rw (c, i) at h1) in
      let (made, m, h3) = >>=-returns (all_proxel_configs yaml all) _ h2 in
      let (out, o, h4) = >>=-returns (specs_of yaml files after all) _ h3 in
      same-connections root connection entries more sections after all c s
        (o ∙ ap returns (specs-of-pair h4)) (read-SameRead entries (connection ∷ more) sections r)

module _ {N : Type 0} (yaml : Yaml N) (files : Files N) (dir : Text)
    (paths : List (List Text)) where
  -- A file whose section 'Connections' is empty and that includes no file: createGraph reads its
  -- proxels and no connections, and generateDOTFile throws, as if the section were missing.
  pub no_connections_differ :
      (root : N) (sections : List N) (configs : List (ProxelConfig Text N)) (enabled : List Text)
      (replicas : Map Text ℕ)
      → optional_items yaml files (text "Connections") root ≡ returns (some [])
      → includes yaml files root ≡ returns []
      → proxel_sections yaml root paths ≡ returns sections
      → all_proxel_configs yaml sections ≡ returns configs
      → all_proxel_names yaml true sections ≡ returns enabled
      → all_replicas yaml sections [] ≡ returns replicas
      → (read_graph yaml files dir paths root ≡ returns (configs, []))
        × (get_all_connections yaml files (root ∷ []) paths ≡ throws invalid_argument)
  unfolding read_graph read_included specs_of connections collect get_all_connections
      gather_connections all_proxel_sections add_connections
  no_connections_differ root sections configs enabled replicas c i p m e r =
      (rw (c, i, p, m, e, r) refl, rw (c, p, append-nil sections, e, r) refl)
