-- ===== src/Geo/Checks/CrawlerAccess.antt =====
-- modules/geo/checks/crawler-access.check.ts
pub mod Groups
use ai_search_api.Base.{
  ℕ, ◌+◌, ◌-◌, ◌*◌, ◌/◌, Bool, true, false, not, ◌&&◌, ◌||◌, Option, none, some, List, [], ◌∷◌,
  ◌++◌, map, ◌==◌, if◌then◌else◌, length, any, keep, change,
}
use ai_search_api.Geo.Numeral.{show}
use ai_search_api.Geo.Finding.{FindingStatus, good, needs_work, hard, Finding}
use ai_search_api.Geo.Checks.Page.{PageContext, or_empty}
use ai_search_api.Base.Text.{join, Text, codes, text_eq, split, trim, to_lower_case}

pub record Rules : Type 0 where
  pub disallow : List Text
  pub allow : List Text

pub record Group : Type 0 where
  pub agent : Text
  pub rules : Rules

abbrev pub no_rules : Rules
no_rules = record { disallow = []; allow = [] }

-- `groups.get(ua)` on the `Map`, kept in the order of insertion
unfoldable pub group_of : Text → List Group → Option Rules
group_of ua [] = none
group_of ua (g ∷ gs) = if text_eq g.agent ua then some g.rules else group_of ua gs

pub data Directive : Type 0 where
  user_agent disallow_rule allow_rule : Text → Directive
  other : Directive

abbrev pub push_value : Directive → Rules → Rules
push_value (disallow_rule v) r = record r { disallow = r.disallow ++ v ∷ [] }
push_value (allow_rule v) r = record r { allow = r.allow ++ v ∷ [] }
push_value _ r = r

-- `groupFor(ua)`, with the value pushed onto the rules it gives
unfoldable pub push_rule : Directive → Text → List Group → List Group
push_rule d ua [] = record { agent = ua; rules = push_value d no_rules } ∷ []
push_rule d ua (g ∷ gs) =
    let rest = push_rule d ua gs in
    if text_eq g.agent ua then record g { rules = push_value d g.rules } ∷ gs else g ∷ rest

unfoldable pub push_rules : Directive → List Text → List Group → List Group
push_rules d [] gs = gs
push_rules d (ua ∷ uas) gs = push_rules d uas (push_rule d ua gs)

-- The text before the first `c` and the text after it, where there is one.
unfoldable pub cut : ℕ → Text → Option (Text × Text)
cut c [] = none
cut c (x ∷ s) =
    if x == c then some ([], s) else elim (cut c s) [ none ↦ none | some (k, v) ↦ some (x ∷ k, v) ]

abbrev pub uncommented : Text → Text
uncommented s = elim (cut 35 s) [ none ↦ s | some (k, v) ↦ k ]

abbrev pub directive_of : Text → Text → Directive
directive_of key value =
    if text_eq key (codes "user-agent")
    then user_agent (to_lower_case value)
    else if text_eq key (codes "disallow")
    then disallow_rule value
    else if text_eq key (codes "allow")
    then allow_rule value
    else other

unfoldable pub read_line : Text → Directive
read_line raw = elim (cut 58 (trim (uncommented raw))) [
  | none ↦ other
  | some (k, v) ↦ directive_of (to_lower_case (trim k)) (trim v)
]

pub record Parser : Type 0 where
  pub groups : List Group
  pub pending : List Text
  pub saw_rule : Bool

abbrev pub agents_of : List Text → List Text
agents_of [] = codes "*" ∷ []
agents_of (ua ∷ uas) = ua ∷ uas

abbrev pub apply_rule : Directive → Parser → Parser
apply_rule d s = record {
  groups = push_rules d (agents_of s.pending) s.groups;
  pending = s.pending;
  saw_rule = true;
}

unfoldable pub step : Directive → Parser → Parser
step (user_agent ua) s = record {
  groups = s.groups;
  pending = (if s.saw_rule then [] else s.pending) ++ ua ∷ [];
  saw_rule = false;
}
step (disallow_rule v) s = apply_rule (disallow_rule v) s
step (allow_rule v) s = apply_rule (allow_rule v) s
step other s = s

unfoldable pub run_lines : List Directive → Parser → Parser
run_lines [] s = s
run_lines (d ∷ ds) s = run_lines ds (step d s)

unfoldable pub parse_groups : Text → List Group
unfolding run_lines read_line split
parse_groups robots =
    (run_lines (map read_line (split 10 robots))
      (record { groups = []; pending = []; saw_rule = false })).groups

abbrev pub is_root : Text → Bool
is_root p = text_eq p (codes "/") || text_eq p (codes "/*")

abbrev pub blocks : Rules → Bool
blocks r = any is_root r.disallow && not (any is_root r.allow)

unfoldable pub is_blocked : List Group → Text → Bool
is_blocked groups bot = elim (group_of (to_lower_case bot) groups) [
  | some r ↦ blocks r
  | none ↦ elim (group_of (codes "*") groups) [ some r ↦ blocks r | none ↦ false ]
]

abbrev pub ai_bots : List Text
ai_bots = codes "GPTBot" ∷ codes "ClaudeBot" ∷ codes "PerplexityBot" ∷ codes "Google-Extended" ∷ []

abbrev access_finding : FindingStatus → Text → Text → Text → Finding
access_finding status summary detail recommendation = record {
  dimension = codes "ai-crawler-access";
  title = codes "AI crawler access";
  status = status;
  summary = summary;
  detail = detail;
  recommendation = recommendation;
  basis =
      codes
        "Vendor crawler docs: OpenAI GPTBot, Anthropic ClaudeBot, PerplexityBot, Google-Extended.";
  strength = hard;
}

-- The bots that are blocked; no file, and an empty one, has no group.
unfoldable pub blocked_bots : PageContext → List Text
unfolding is_blocked parse_groups
blocked_bots ctx =
    let groups = parse_groups (or_empty ctx.robots_txt) in keep (is_blocked groups) ai_bots

unfoldable pub crawler_access_check : PageContext → Finding
unfolding blocked_bots
crawler_access_check ctx = elim (blocked_bots ctx) [
  | [] ↦
      access_finding good (codes "AI crawlers are allowed to read this site.")
        (codes "No AI-specific user-agent is disallowed from the site root.")
        (codes "No change needed.")
  | b ∷ bs ↦
      access_finding needs_work
        (codes "robots.txt blocks " ++ show (length (b ∷ bs)) ++ codes " AI crawler(s).")
        (codes "These are disallowed from the site: "
          ++ join (codes ", ") (b ∷ bs)
          ++ codes ". Blocked crawlers cannot read your pages, so their engines cannot cite you.")
        (codes "Remove the \"Disallow: /\" rule for: "
          ++ join (codes ", ") (b ∷ bs)
          ++ codes " (or delete the AI-bot user-agent groups) in robots.txt.")
]
