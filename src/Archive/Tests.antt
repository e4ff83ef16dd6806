-- ===== src/Archive/Tests.antt =====
-- Archives that are extracted and archives that are refused.
use infra_loop_kda.Base.{◌≡◌, refl, List, [], ◌∷◌, All}
use infra_loop_kda.Base.Text.{split_on, push_char}
use infra_loop_kda.Base.Outcome.{ok, err, tool_error}
use infra_loop_kda.Paths.{is_absolute}
use infra_loop_kda.Paths.Normal.{normal_step, normal_loop, normal_parts}
use infra_loop_kda.Archive.{
  file, symbolic_link, hard_link, Member, resolved, link_escapes, has_bad_link, check_member,
  safe_extract,
}
use infra_loop_kda.Archive.Inside.{IsInside, safe_extract-IsInside}

runs : Unit {0}
unfolding split_on push_char is_absolute normal_step normal_loop normal_parts resolved link_escapes
    has_bad_link check_member safe_extract
runs = tt

abbrev tree : List Member
tree =
    record { name = "python/./a.py"; kind = file }
    ∷ record { name = "docs/link"; kind = symbolic_link "../python/a.py" }
    ∷ []

climbing_link :
    safe_extract (record { name = "docs/link"; kind = symbolic_link "../../etc" } ∷ [])
    ≡ err (tool_error "archive member docs/link links outside the archive root")
unfolding runs
climbing_link = refl

-- The target of a hard link counts from the root of the archive, where `../x` is outside; the check
-- takes it from the directory of the link.
climbing_hard_link :
    safe_extract (record { name = "docs/link"; kind = hard_link "../x" } ∷ []) ≡ ok tt
unfolding runs
climbing_hard_link = refl

safe_extract-IsInside_example : All IsInside tree
unfolding runs
safe_extract-IsInside_example = safe_extract-IsInside tree refl
