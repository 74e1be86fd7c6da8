-- ===== src/Server/TemplatesTests.antt =====
-- What the templates' functions give for some texts and times.
use mahogany.Base.{
  ℕ, ◌+◌, ◌<◌, ◌≡◌, refl, ◌↔◌, none, some, List, [], Result, ok, pos, negsuc, number_eq,
}
use mahogany.Metrics.{codes}
use mahogany.Server.Templates.{truncate, cut_on}
use mahogany.Server.LastSeen.{
  digits, fraction, show_duration, tell, minute, last_seen, last_seen-connected,
}

truncates : truncate (codes "alpha") (pos 3) ≡ some (codes "alp")
truncates = refl

truncate_panics : truncate (codes "alpha") (negsuc 0) ≡ none
truncate_panics = refl

cuts : cut_on (codes "1.50.1-t25f7") (codes "-") ≡ some (codes "1.50.1")
unfolding number_eq
cuts = refl

cuts_nothing : cut_on [] [] ≡ none
cuts_nothing = refl

shows : show_duration 3_723_500_000_000 ≡ codes "1h2m3.5s"
unfolding show_duration fraction digits number_eq
shows = refl

-- The times are read as numbers of nanoseconds, all of them 5 after the start.
abbrev reads : List ℕ → Result ℕ
reads str = ok 5

tells_days : last_seen reads 172_800_000_000_006 (codes "t") ≡ codes "2 days ago"
unfolding last_seen tell digits
tells_days = refl

last_seen-connected_example :
    (last_seen reads 172_800_000_000_006 (codes "t") ≡ codes "Connected")
    ↔ (172_800_000_000_006 < 5 + minute)
last_seen-connected_example = last_seen-connected reads 172_800_000_000_006 5 (codes "t") refl
