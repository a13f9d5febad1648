-- ===== src/Metrics/Reporter/Request.antt =====
-- The reporter and the requests that it posts: `NewReporter`, `baseURLForProject` and `post` of
-- internal/services/metrics/reporter.go. The request is sent by the HTTP library; what it answers is
-- only logged.
use authzcache.Base.{
  ℕ, zero, suc, ◌&&◌, Bool, ◌||◌, List, [], ◌∷◌, ◌++◌, map, Text, eqb, leb, length, after,
  if◌then◌else◌,
}
use authzcache.Base.Texts.{codes, trim_start, trim_end}
use authzcache.Cache.{second, duration}
use authzcache.Metrics.{Collector}
use authzcache.Metrics.Reporter.{Payload, report}

-- the first `n` bytes
first : ℕ → Text → Text
first zero s = []
first (suc n) [] = []
first (suc n) (c ∷ s) = c ∷ first n s

abbrev pub default_api_prefix : Text
default_api_prefix = codes "https://api"

abbrev pub default_domain_name : Text
default_domain_name = codes "descope.com"

-- `strings.TrimSpace` on a text of ASCII bytes
is_space : ℕ → Bool
is_space c = eqb c 32 || (leb 9 c && leb c 13)

is_slash : ℕ → Bool
is_slash c = eqb c b'/'

-- `projectID[1:5]`
region : Text → Text
unfolding first
region project_id = first 4 (after 1 project_id)

custom_or_region : Text → Text → Text
unfolding trim_end is_slash region
custom_or_region project_id [] =
    if leb 32 (length project_id)
    then default_api_prefix ++ (b'.' ∷ (region project_id ++ (b'.' ∷ default_domain_name)))
    else default_api_prefix ++ (b'.' ∷ default_domain_name)
custom_or_region project_id (c ∷ s) = trim_end is_slash (c ∷ s)

-- `baseURLForProject`
unfoldable pub base_url_for_project : Text → Text → Text
unfolding custom_or_region trim_start trim_end is_space
base_url_for_project project_id custom =
    custom_or_region project_id (trim_end is_space (trim_start is_space custom))

-- Reporter, without the HTTP client
pub record Reporter : Type 0 where
  pub collector : Collector
  pub custom_base_url : Text
  pub management_key : Text
  pub interval : ℕ
  pub enabled : Bool

-- `NewReporter`; the seconds are those of the configuration, which are positive
pub new_reporter : Collector → Text → Text → ℕ → Bool → Reporter
new_reporter collector base_url management_key interval_seconds enabled = record {
  collector = collector;
  custom_base_url = base_url;
  management_key = management_key;
  interval = duration second interval_seconds;
  enabled = enabled;
}

-- The request of `post`, before its body is marshalled; the git SHA is the library's.
pub record PostRequest : Type 0 where
  pub url : Text
  pub content_type : Text
  pub authorization : Text
  pub git_sha : Text
  pub metrics : List Payload

pub post : Text → Reporter → Text × List Payload → PostRequest
unfolding base_url_for_project
post sha r (project_id, metrics) = record {
  url = base_url_for_project project_id r.custom_base_url ++ codes "/v1/mgmt/fga/cache/metrics";
  content_type = codes "application/json";
  authorization = codes "Bearer " ++ (project_id ++ (b':' ∷ r.management_key));
  git_sha = sha;
  metrics = metrics;
}

-- one tick of `run`: `report` with the requests of its posts
pub report_tick : Text → Reporter → List PostRequest × Reporter
unfolding post
report_tick sha r =
    let (taken, left) = report r.collector in
    (map (post sha r) taken, record r { collector = left })
