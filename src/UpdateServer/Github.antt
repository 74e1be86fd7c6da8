-- ===== src/UpdateServer/Github.antt =====
-- The table `githubPackages`: its entries are packages of the topology under their own ids, so a
-- webhook never meets a package with no Github part or no compiled expression.
use mathlib.Core.Path.{subst}
use mahogany.Base.{
  String, ◌≡◌, sym, inl, inr, none, some, List, [], ◌∷◌, arith, Result, ok, Error, Option, All,
  Option-cases,
}
use mahogany.Base.{string_eq}
use mahogany.Base.Dict.{Dict, lookup, insert, lookup-insert, lookup-nil}
use mahogany.Schema.{Regex, GithubPackage, Package, HostPackages, Topology, Release}
use mahogany.Schema.Read.{IsCompiled, read_topology, read_topology-AllCompiled}
use mahogany.UpdateServer.{
  UpdateServer, add_github, add_baseline, add_packages, add_skipped, add_hosts, new_update_server,
}
use mahogany.UpdateServer.Propagate.{
  Announcement, event_of, propagate, propagate-event_of, propagate_unknown,
}

-- What every entry of the table has, if every package of the topology from Github has it.
module _ (P : String → Package → Type 0) where
  abbrev AllGithub : List Package → Type 0
  AllGithub = All (λ pack. (g : GithubPackage) → pack.github_package ≡ some g → P pack.id pack)

  record Holds (table : Dict String Package) : Type 0 where
    at_name : (name : String) (pack : Package) → lookup name table ≡ some pack → P name pack

  Holds-insert :
      (new : Package) (table : Dict String Package)
      → P new.id new
      → Holds table
      → Holds (insert new.id new table)
  Holds-insert new table h old = record {
    at_name = λ name pack found. elim (string_eq.dec name new.id) [
      | yes p ↦
          subst (P name) (ground (arith, lookup-insert name new.id new table))
            (subst (λ k. P k new) (sym p) h)
      | no p ↦ old.at_name name pack (ground (arith, lookup-insert name new.id new table))
    ];
  }

  Holds-add_github :
      (new : Package) (table : Dict String Package)
      → ((g : GithubPackage) → new.github_package ≡ some g → P new.id new)
      → Holds table
      → Holds (add_github new table)
  unfolding add_github
  Holds-add_github new table h old = elim (Option-cases new.github_package) [
    | inl plain ↦ rw (plain, add_github) old
    | inr (g, e) ↦ rw (e, add_github) (Holds-insert new table (h g e) old)
  ]

  Holds-add_baseline :
      (packs : List Package) (s : UpdateServer)
      → AllGithub packs
      → Holds s.github_packages
      → Holds (add_baseline packs s).github_packages
  unfolding add_baseline
  Holds-add_baseline [] s all old = old
  Holds-add_baseline (pack ∷ packs) s all old =
      Holds-add_baseline packs _ all.1 (Holds-add_github pack s.github_packages all.0 old)

  Holds-add_packages :
      (host : String) (packs : List Package) (s : UpdateServer)
      → AllGithub packs
      → Holds s.github_packages
      → Holds (add_packages host packs s).github_packages
  unfolding add_packages
  Holds-add_packages host [] s all old = old
  Holds-add_packages host (pack ∷ packs) s all old =
      Holds-add_packages host packs _ all.1 (Holds-add_github pack s.github_packages all.0 old)

  Holds-add_skipped :
      (host : String) (names : List String) (s : UpdateServer)
      → Holds s.github_packages
      → Holds (add_skipped host names s).github_packages
  unfolding add_skipped
  Holds-add_skipped host [] s old = old
  Holds-add_skipped host (name ∷ names) s old = Holds-add_skipped host names _ old

  Holds-add_hosts :
      (hs : List HostPackages) (s : UpdateServer)
      → All (λ h. AllGithub h.packages) hs
      → Holds s.github_packages
      → Holds (add_hosts hs s).github_packages
  unfolding add_hosts
  Holds-add_hosts [] s all old = old
  Holds-add_hosts (h ∷ hs) s all old = Holds-add_hosts hs _ all.1 (
      Holds-add_skipped h.host_name h.skipped _
        (Holds-add_packages h.host_name h.packages s all.0 old))

  Holds-new_update_server :
      (topo : Topology)
      → AllGithub topo.baseline
      → All (λ h. AllGithub h.packages) topo.host_packages
      → Holds (new_update_server topo).github_packages
  unfolding new_update_server
  Holds-new_update_server topo base hosts = Holds-add_hosts topo.host_packages _ hosts (
      Holds-add_baseline topo.baseline _ base (record {
        at_name = λ name pack found. absurd (ground (arith, lookup-nil {V = Package} name));
      }))

abbrev IsUsable : Package → Type 0
IsUsable pack =
    (g : GithubPackage) × (re : Regex) × (pack.github_package ≡ some g) × (g.regex ≡ some re)

module _ (compile : String → Result Regex) where
  IsCompiled-IsUsable :
      (pack : Package) (g : GithubPackage)
      → IsCompiled compile pack
      → pack.github_package ≡ some g
      → IsUsable pack
  IsCompiled-IsUsable pack g c e = let (re, compiled, _) = rw e at c in (g, re, e, compiled)

  AllGithub-packages :
      (packs : List Package)
      → All (IsCompiled compile) packs
      → AllGithub (λ _ pack. IsUsable pack) packs
  AllGithub-packages [] c = tt
  AllGithub-packages (pack ∷ packs) c =
      (λ g e. IsCompiled-IsUsable pack g c.0 e, AllGithub-packages packs c.1)

  AllGithub-hosts :
      (hs : List HostPackages)
      → All (λ h. All (IsCompiled compile) h.packages) hs
      → All (λ h. AllGithub (λ _ pack. IsUsable pack) h.packages) hs
  AllGithub-hosts [] c = tt
  AllGithub-hosts (h ∷ hs) c = (AllGithub-packages h.packages c.0, AllGithub-hosts hs c.1)

propagate_known :
    (s : UpdateServer) (n : Announcement)
    → Holds (λ _ pack. IsUsable pack) s.github_packages
    → (r : Option Release) × (propagate s (event_of n) ≡ some r)
propagate_known s n usable = elim (Option-cases (lookup n.repo_name s.github_packages)) [
  | inl missing ↦ (none, propagate_unknown s n missing)
  | inr (pack, found) ↦
      let (g, re, from_github, compiled) = usable.at_name n.repo_name pack found in
      (_, propagate-event_of pack g re from_github compiled s n found)
]

module _ {File : Type 0} (open_file : String → Result File) (decode : File → Result Topology)
    (validate : Topology → Option Error) (compile : String → Result Regex) where
  -- A server that was built from a topology file that could be read handles every webhook event
  -- whose fields are set without a panic.
  pub propagate-read_topology :
      (filename : String) (topo : Topology) (n : Announcement)
      → read_topology open_file decode validate compile filename ≡ ok topo
      → (r : Option Release) × (propagate (new_update_server topo) (event_of n) ≡ some r)
  propagate-read_topology filename topo n read =
      let all = read_topology-AllCompiled open_file decode validate compile filename read in
      propagate_known _ n (
        Holds-new_update_server _ topo (AllGithub-packages compile _ all.0)
          (AllGithub-hosts compile _ all.1))
