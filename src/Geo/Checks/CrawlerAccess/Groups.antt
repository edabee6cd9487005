-- ===== src/Geo/Checks/CrawlerAccess/Groups.antt =====
-- modules/geo/checks/crawler-access.check.ts: which rules of a robots.txt an agent's group holds.
use ai_search_api.Base.{
  ℕ, zero, suc, ◌≡◌, refl, sym, ap, ◌∙◌, inl, inr, true, false, Option, none, some, List, [], ◌∷◌,
  ◌++◌, map, arith, if◌then◌else◌, Bool-cases, count,
}
use ai_search_api.Base.Text.{Text, text_eq, split, text_eq_sound}
use ai_search_api.Geo.Checks.CrawlerAccess.{
  Rules, Group, no_rules, group_of, Directive, user_agent, disallow_rule, allow_rule, other,
  push_value, push_rule, push_rules, read_line, Parser, agents_of, step, run_lines, parse_groups,
}

text_eq-same : (a s t : Text) → text_eq a s ≡ true → text_eq a t ≡ text_eq s t
text_eq-same a s t h = rw (text_eq_sound a s h) refl

abbrev rules_or_none : Option Rules → Rules
rules_or_none none = no_rules
rules_or_none (some r) = r

-- The value of a rule, once for each time that the agent is named.
abbrev pub stated : ℕ → Directive → Option Rules → Option Rules
stated zero d o = o
stated (suc n) d o = stated n d (some (push_value d (rules_or_none o)))

-- The unbroken run of User-agent lines that ends just above, most recent line first in the list.
abbrev pub run_above : List Directive → List Text
run_above [] = []
run_above (user_agent v ∷ ds) = run_above ds ++ v ∷ []
run_above (disallow_rule v ∷ ds) = []
run_above (allow_rule v ∷ ds) = []
run_above (other ∷ ds) = run_above ds

-- The nearest run of User-agent lines above.
abbrev pub nearest_run : List Directive → List Text
nearest_run [] = []
nearest_run (user_agent v ∷ ds) = run_above ds ++ v ∷ []
nearest_run (disallow_rule v ∷ ds) = nearest_run ds
nearest_run (allow_rule v ∷ ds) = nearest_run ds
nearest_run (other ∷ ds) = nearest_run ds

abbrev pub times_named : Text → List Directive → ℕ
times_named ua above = count (λ x. text_eq x ua) (agents_of (nearest_run above))

-- The rules of one agent: each rule line counts for the agents of the nearest run above it, and for
-- `*` where there is none.
abbrev pub own_rules : Text → List Directive → List Directive → Option Rules → Option Rules
own_rules ua above [] o = o
own_rules ua above (user_agent v ∷ ds) o = own_rules ua (user_agent v ∷ above) ds o
own_rules ua above (disallow_rule v ∷ ds) o =
    own_rules ua (disallow_rule v ∷ above) ds (stated (times_named ua above) (disallow_rule v) o)
own_rules ua above (allow_rule v ∷ ds) o =
    own_rules ua (allow_rule v ∷ above) ds (stated (times_named ua above) (allow_rule v) o)
own_rules ua above (other ∷ ds) o = own_rules ua (other ∷ above) ds o

group_of-push_rule :
    (ua x : Text) (d : Directive) (gs : List Group)
    → group_of ua (push_rule d x gs) ≡ (
        if text_eq x ua
        then some (push_value d (rules_or_none (group_of ua gs)))
        else group_of ua gs)
unfolding group_of push_rule
group_of-push_rule ua x d [] = refl
group_of-push_rule ua x d (g ∷ gs) = elim (Bool-cases (text_eq g.agent x)) [
  | inl h ↦
      rw (h, text_eq-same g.agent x ua h)
        elim (Bool-cases (text_eq x ua)) [ inl e ↦ rw (e) refl | inr e ↦ rw (e) refl ]
  | inr h ↦ rw (h) elim (Bool-cases (text_eq x ua)) [
    | inl e ↦ rw (e, sym (text_eq_sound x ua e), h) ground (arith, group_of-push_rule ua x d gs)
    | inr e ↦ rw (group_of-push_rule ua x d gs, e) refl
  ]
]

group_of-push_rules :
    (ua : Text) (d : Directive) (uas : List Text) (gs : List Group)
    → group_of ua (push_rules d uas gs) ≡ stated (count (λ x. text_eq x ua) uas) d (group_of ua gs)
unfolding push_rules
group_of-push_rules ua d [] gs = refl
group_of-push_rules ua d (x ∷ uas) gs =
    ground (arith, group_of-push_rules ua d uas (push_rule d x gs), group_of-push_rule ua x d gs)

group_of-run_lines :
    (ua : Text) (above ds : List Directive) (s : Parser)
    → s.pending ≡ nearest_run above
    → (if s.saw_rule then [] else s.pending) ≡ run_above above
    → group_of ua (run_lines ds s).groups ≡ own_rules ua above ds (group_of ua s.groups)
unfolding run_lines step
group_of-run_lines ua above [] s near here = refl
group_of-run_lines ua above (user_agent v ∷ ds) s near here =
    group_of-run_lines ua (user_agent v ∷ above) ds (step (user_agent v) s)
      (ap (λ uas. uas ++ v ∷ []) here) (ap (λ uas. uas ++ v ∷ []) here)
group_of-run_lines ua above (disallow_rule v ∷ ds) s near here =
    group_of-run_lines ua (disallow_rule v ∷ above) ds (step (disallow_rule v) s) near refl
    ∙ ap (own_rules ua (disallow_rule v ∷ above) ds) (
        group_of-push_rules ua (disallow_rule v) (agents_of s.pending) s.groups
        ∙ ap
            (λ uas.
              stated (count (λ x. text_eq x ua) (agents_of uas)) (disallow_rule v)
                (group_of ua s.groups))
            near)
group_of-run_lines ua above (allow_rule v ∷ ds) s near here =
    group_of-run_lines ua (allow_rule v ∷ above) ds (step (allow_rule v) s) near refl
    ∙ ap (own_rules ua (allow_rule v ∷ above) ds) (
        group_of-push_rules ua (allow_rule v) (agents_of s.pending) s.groups
        ∙ ap
            (λ uas.
              stated (count (λ x. text_eq x ua) (agents_of uas)) (allow_rule v)
                (group_of ua s.groups))
            near)
group_of-run_lines ua above (other ∷ ds) s near here =
    group_of-run_lines ua (other ∷ above) ds s near here

-- The rules that a robots.txt has for an agent: those of the lines whose nearest run of User-agent
-- lines above names it, comments and unknown lines aside, in order; rules with no such line above
-- them are those of `*`.
pub parse_groups_exact :
    (ua robots : Text)
    → group_of ua (parse_groups robots) ≡ own_rules ua [] (map read_line (split 10 robots)) none
unfolding parse_groups group_of
parse_groups_exact ua robots =
    group_of-run_lines ua [] (map read_line (split 10 robots))
      (record { groups = []; pending = []; saw_rule = false }) refl refl
