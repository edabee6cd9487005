-- ===== src/Geo/Tests.antt =====
-- The theorems on the guard and the fetcher of modules/geo at concrete inputs.
mod Routes
use ai_search_api.Base.{
  ℕ, ◌+◌, ◌-◌, ◌*◌, ◌/◌, ◌%◌, ◌≤◌, ◌<◌, ◌≡◌, refl, true, false, ◌||◌, Option, none, some, List, [],
  ◌∷◌, map, arith, ◌==◌, if◌then◌else◌, length, all, count,
}
use ai_search_api.Base.Result.{ok, failure}
use ai_search_api.Base.Prisma.{list_client}
use ai_search_api.Geo.SiteAudit.{World}
use ai_search_api.Geo.Audits.{is_in_flight, create}
use ai_search_api.Geo.Audits.Cap.{accepted, create_capped}
use ai_search_api.Base.Text.{Text}
use ai_search_api.Geo.PlainText.{plain_text}
use ai_search_api.Geo.PlainText.Markup.{is_no_ascii_control, has_no_tag, plain_text_safe}
use ai_search_api.Geo.Checks.Page.{Document}
use ai_search_api.Geo.Checks.CrawlerAccess.{group_of, read_line, parse_groups}
use ai_search_api.Geo.Checks.CrawlerAccess.Groups.{own_rules, parse_groups_exact}
use ai_search_api.Geo.Checks.StructuredData.{Json, string, object, member, no_members}
use ai_search_api.Base.Text.{codes, text_eq, split, to_lower_case}
use ai_search_api.Geo.Numeral.{number, show, show_hex, parse_hex}
use ai_search_api.Geo.Address.{
  is_blocked_v4, is_blocked_v6, is_blocked_address, dotted, blocked_groups, expand_v6, octets,
  blocked_octets, embedded_v4,
}
use ai_search_api.Geo.Address.Ranges.{
  quad, is_special, embeds_v4, is_blocked_v4-eq-is_special, blocked_groups_exact,
}
use ai_search_api.Geo.UrlGuard.{Url, ValidatedAddress, Platform, assert_fetchable_url}
use ai_search_api.Geo.UrlGuard.Safety.{IsGuarded, assert_fetchable_url-IsGuarded}
use ai_search_api.Geo.PageFetcher.{done, chunk, Response, Web, Trace}

-- The guard's own tests: a private address in decimal, the loopback in three IPv6 spellings, the
-- metadata address, a NAT64 address of a private one, and a public one.
guard_tests :
    (is_blocked_v4 (codes "10.1.2.3") ≡ true)
    × (is_blocked_v4 (codes "169.254.169.254") ≡ true)
    × (is_blocked_v4 (codes "8.8.8.8") ≡ false)
    × (is_blocked_v6 (codes "::1") ≡ true)
    × (is_blocked_v6 (codes "::ffff:127.0.0.1") ≡ true)
    × (is_blocked_v6 (codes "::FFFF:7f00:1") ≡ true)
    × (is_blocked_v6 (codes "64:ff9b::a00:1") ≡ true)
    × (is_blocked_v6 (codes "fe80::1%eth0") ≡ true)
    × (is_blocked_v6 (codes "2001:4860:4860::8888") ≡ false)
unfolding is_blocked_v4 is_blocked_v6 expand_v6 blocked_groups blocked_octets octets split number
    to_lower_case embedded_v4 dotted show show_hex parse_hex
guard_tests = (refl, refl, refl, refl, refl, refl, refl, refl, refl)

is_blocked_v4-eq-is_special_example :
    is_blocked_v4 (dotted 172 20 1 9) ≡ is_special (quad 172 20 1 9)
is_blocked_v4-eq-is_special_example =
    is_blocked_v4-eq-is_special 172 20 1 9 (omega arith) (omega arith) (omega arith) (omega arith)

blocked_groups_exact_example : blocked_groups (0 ∷ 0 ∷ 0 ∷ 0 ∷ 0 ∷ 0xffff ∷ 0x7f00 ∷ 1 ∷ []) ≡ (
    if embeds_v4 (0 ∷ 0 ∷ 0 ∷ 0 ∷ 0 ∷ 0xffff ∷ 0x7f00 ∷ 1 ∷ [])
    then is_special (0x7f00 * 65536 + 1)
    else (0 / 512 == 126 || 0 / 64 == 1018))
blocked_groups_exact_example =
    blocked_groups_exact 0 0 0 0 0 0xffff 0x7f00 1 (omega arith) (omega arith) (omega arith)

abbrev loopback_groups : List ℕ
loopback_groups = 0 ∷ 0 ∷ 0 ∷ 0 ∷ 0 ∷ 0xffff ∷ 0x7f00 ∷ 1 ∷ []

loopback : expand_v6 (codes "::ffff:127.0.0.1") ≡ some loopback_groups
unfolding expand_v6 octets split number to_lower_case show_hex parse_hex
loopback = refl

-- A platform with one site: every text is a URL of it, and it resolves to 8.8.8.8 and then
-- 10.0.0.1.
abbrev site : Url
site = record {
  protocol = codes "https:";
  hostname = codes "site.test";
  origin = codes "https://site.test";
}

abbrev google : ValidatedAddress
google = record { address = codes "8.8.8.8"; family = 4 }

abbrev small_platform : Platform
small_platform = record {
  parse_url = λ _. some site;
  is_ip = λ t. if text_eq t (codes "8.8.8.8") then 4 else 0;
  lookup = λ _ _. some (google ∷ []);
}

passes : assert_fetchable_url small_platform 0 (codes "https://site.test") false ≡ ok (some google)
unfolding assert_fetchable_url is_blocked_address is_blocked_v4 blocked_octets octets split number
passes = refl

assert_fetchable_url-IsGuarded_example :
    (a : ValidatedAddress) × (some google ≡ some a)
    × IsGuarded small_platform 0 (codes "https://site.test") a
assert_fetchable_url-IsGuarded_example =
    assert_fetchable_url-IsGuarded small_platform 0 (codes "https://site.test") (some google) passes

abbrev page : Response
page = record {
  status = 200;
  location = none;
  content_type = some (codes "text/html");
  content_length = none;
  body = some (chunk (60 ∷ []) (chunk (62 ∷ []) done));
}

abbrev small_web : Web
small_web = record {
  platform = small_platform;
  join = λ l _. some l;
  request = λ _ _ _. some page;
  decode = λ bytes. bytes;
  exceeds = λ text n. false;
}

abbrev start : Trace
start = record { now = 0; sent = [] }

plain_text_safe_example :
    (length (plain_text (codes "<b>Hi") 4) ≤ 4)
    × (all is_no_ascii_control (plain_text (codes "<b>Hi") 4) ≡ true)
    × (has_no_tag (plain_text (codes "<b>Hi") 4) ≡ true)
plain_text_safe_example = plain_text_safe (codes "<b>Hi") 4

parse_groups_exact_example :
    group_of (codes "gptbot") (parse_groups (codes "User-agent: GPTBot\nDisallow: /"))
    ≡ own_rules
        (codes "gptbot")
        []
        (map read_line (split 10 (codes "User-agent: GPTBot\nDisallow: /")))
        none
parse_groups_exact_example =
    parse_groups_exact (codes "gptbot") (codes "User-agent: GPTBot\nDisallow: /")

-- A document whose every element has one text.
abbrev small_document : Text → Document
small_document html = record {
  matched = λ _. 1;
  text_of = λ _. html;
  first_text = λ _. html;
  texts = λ _. html ∷ [];
  attr = λ _ _. none;
  attrs = λ _ _. [];
}

abbrev small_parse : Text → Option Json
small_parse s = some (object (member (codes "@type") (string s) no_members))

abbrev quiet : World
quiet = record { audits = []; notifications = []; jobs = [] }

create_capped_example :
    (count
        (is_in_flight "t1")
        (create list_client "a1" 7 (some (failure "down")) (codes "x") "u1" "t1" quiet).1.audits
      ≡ accepted (create list_client "a1" 7 (some (failure "down")) (codes "x") "u1" "t1" quiet).0
        + 0)
    × (length (create list_client "a1" 7 (some (failure "down")) (codes "x") "u1" "t1" quiet).1.jobs
        ≡ accepted (create list_client "a1" 7 (some (failure "down")) (codes "x") "u1" "t1" quiet).0
          + 0)
    × (count
          (is_in_flight "t1")
          (create list_client "a1" 7 (some (failure "down")) (codes "x") "u1" "t1" quiet).1.audits
        ≤ 5)
create_capped_example =
    create_capped list_client "a1" 7 (codes "x") "u1" "t1" quiet (some (failure "down")) refl
