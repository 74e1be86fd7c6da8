-- ===== src/Schema/Read.antt =====
-- `ReadTopology` of pkg/schema/topology.go. Reading the file, the TOML decoder, the struct
-- validator and the compilation of a regular expression are parameters.
use mahogany.Base.{
  String, ◌≡◌, refl, inl, inr, Option, none, some, List, [], ◌∷◌, Error, Result, ok, err, ◌>>=◌,
  All, Returns, Returns-bind, Returns_value, Returns-known, Option-cases,
}
use mahogany.Schema.{Regex, Package, HostPackages, Topology}

module _ (compile : String → Result Regex) where
  -- The body of either loop: a package from Github gets its compiled expression.
  abbrev compile_package : Package → Result Package
  compile_package pack = elim pack.github_package [
    | none ↦ ok pack
    | some g ↦ do
      re ← compile g.asset_regex
      ok (record pack { github_package = some (record g { regex = some re }) })
  ]

  unfoldable compile_packages : List Package → Result (List Package)
  compile_packages [] = ok []
  compile_packages (pack ∷ packs) = do
    pack' ← compile_package pack
    packs' ← compile_packages packs
    ok (pack' ∷ packs')

  unfoldable compile_hosts : List HostPackages → Result (List HostPackages)
  compile_hosts [] = ok []
  compile_hosts (host ∷ hosts) = do
    packs ← compile_packages host.packages
    hosts' ← compile_hosts hosts
    ok (record host { packages = packs } ∷ hosts')

module _ {File : Type 0} (open_file : String → Result File) (decode : File → Result Topology)
    (validate : Topology → Option Error) (compile : String → Result Regex) where
  unfoldable pub read_topology : String → Result Topology
  unfolding compile_packages compile_hosts
  read_topology filename = do
    fp ← open_file filename
    topo ← decode fp
    elim (validate topo) [
      | some e ↦ err e
      | none ↦ do
        baseline ← compile_packages compile topo.baseline
        hosts ← compile_hosts compile topo.host_packages
        ok (record topo { baseline = baseline; host_packages = hosts })
    ]

-- A package's expression is compiled if it comes from Github.
abbrev pub IsCompiled : (String → Result Regex) → Package → Type 0
IsCompiled compile pack = elim pack.github_package [
  | none ↦ Unit
  | some g ↦ (re : Regex) × (g.regex ≡ some re) × (compile g.asset_regex ≡ ok re)
]

abbrev pub AllCompiled : (String → Result Regex) → Topology → Type 0
AllCompiled compile topo =
    All (IsCompiled compile) topo.baseline
    × All (λ host. All (IsCompiled compile) host.packages) topo.host_packages

module _ (compile : String → Result Regex) where
  compile_package-IsCompiled :
      (pack : Package) → Returns (IsCompiled compile) (compile_package compile pack)
  compile_package-IsCompiled pack = elim (Option-cases pack.github_package) [
    | inl plain ↦ rw plain tt
    | inr (g, e) ↦ rw e (
        Returns-bind (λ re. compile g.asset_regex ≡ ok re) (IsCompiled compile)
          (compile g.asset_regex) _ (Returns-known _ _ (λ re p. p)) (λ re _ p. (re, refl, p)))
  ]

  compile_packages-IsCompiled :
      (packs : List Package) → Returns (All (IsCompiled compile)) (compile_packages compile packs)
  unfolding compile_packages
  compile_packages-IsCompiled [] = tt
  compile_packages-IsCompiled (pack ∷ packs) =
      Returns-bind (IsCompiled compile) (All (IsCompiled compile)) _ _
        (compile_package-IsCompiled pack)
        (λ pack' _ p.
          Returns-bind (All (IsCompiled compile)) (All (IsCompiled compile)) _ _
            (compile_packages-IsCompiled packs) (λ packs' _ ps. (p, ps)))

  abbrev HostsCompiled : List HostPackages → Type 0
  HostsCompiled = All (λ host. All (IsCompiled compile) host.packages)

  compile_hosts-HostsCompiled :
      (hosts : List HostPackages) → Returns HostsCompiled (compile_hosts compile hosts)
  unfolding compile_hosts
  compile_hosts-HostsCompiled [] = tt
  compile_hosts-HostsCompiled (host ∷ hosts) =
      Returns-bind (All (IsCompiled compile)) HostsCompiled _ _
        (compile_packages-IsCompiled host.packages)
        (λ packs _ p.
          Returns-bind HostsCompiled HostsCompiled _ _ (compile_hosts-HostsCompiled hosts)
            (λ hosts' _ ps. (p, ps)))

abbrev Any : {A : Type 0} → A → Type 0
Any a = Unit

anything : {A : Type 0} (m : Result A) → Returns (Any {A = A}) m
anything m = Returns-known _ m (λ a e. tt)

module _ {File : Type 0} (open_file : String → Result File) (decode : File → Result Topology)
    (validate : Topology → Option Error) (compile : String → Result Regex) where
  -- Whatever the file holds, every package from Github in a topology that is read has the compiled
  -- form of its own expression, in the baseline and on each host.
  pub read_topology-AllCompiled :
      (filename : String) {topo : Topology}
      → read_topology open_file decode validate compile filename ≡ ok topo
      → AllCompiled compile topo
  unfolding read_topology
  read_topology-AllCompiled filename read = Returns_value (AllCompiled compile) _ read (
      Returns-bind Any (AllCompiled compile) (open_file filename) _ (anything _) (λ fp _ _.
        Returns-bind Any (AllCompiled compile) (decode fp) _ (anything _) (λ topo _ _.
          elim (Option-cases (validate topo)) [
            | inr (e, bad) ↦ rw bad tt
            | inl good ↦ rw good (
                Returns-bind (All (IsCompiled compile)) (AllCompiled compile) _ _
                  (compile_packages-IsCompiled compile topo.baseline)
                  (λ baseline _ p.
                    Returns-bind (HostsCompiled compile) (AllCompiled compile) _ _
                      (compile_hosts-HostsCompiled compile topo.host_packages)
                      (λ hosts _ q. (p, q))))
          ])))
