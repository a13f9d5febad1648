-- ===== src/Remote.antt =====
-- internal/services/remote/remote.go: the SDK client of a project, made from the environment.
use authzcache.Base.{ℕ, Bool, true, [], ◌∷◌, Text, text_eq, eqb, if◌then◌else◌}
use authzcache.Base.Texts.{codes, trim_start, trim_end}
use authzcache.Sdk.{GoError}
use authzcache.Config.{Environment, get_sdk_debug_log}
use authzcache.Services.Backend.{Reply, replied, failed}

pub data LogLevel : Type 0 where
  debug : LogLevel
  info : LogLevel

-- client.Config, by the fields that are set from something; the git SHA is a header of every request.
pub record ClientConfig : Type 0 where
  pub project_id : Text
  pub session_jwt_via_cookie : Bool
  pub base_url : Text
  pub log_level : LogLevel
  pub management_key : Text
  pub git_sha : Text

-- What the process and the libraries give: the two variables of the environment, the git SHA,
-- `client.NewWithConfig`, `SetListConditions` and the error `ae.UnknownProject`.
pub record RemoteSdk (Client World : Type 0) : Type 0 where
  pub base_url : Text
  pub raw_management_key : Text
  pub git_sha : Text
  pub new_with_config : ClientConfig → World → Reply Client × World
  pub set_list_conditions : Bool → Client → Client
  pub unknown_project : Text → GoError

is_quote : ℕ → Bool
is_quote c = eqb c b'"'

-- `strings.Trim(s, "\"")`
pub trim_quotes : Text → Text
unfolding trim_start trim_end is_quote
trim_quotes s = trim_end is_quote (trim_start is_quote s)

abbrev pub empty_project_id : Text
empty_project_id = codes "projectID is empty"

module _ {Client World : Type 0} (env : Environment) (sdk : RemoteSdk Client World) where
  get_log_level : LogLevel
  get_log_level = if get_sdk_debug_log env then debug else info

  client_config : Text → ClientConfig
  unfolding get_log_level trim_quotes
  client_config id = record {
    project_id = id;
    session_jwt_via_cookie = true;
    base_url = sdk.base_url;
    log_level = get_log_level;
    management_key = trim_quotes sdk.raw_management_key;
    git_sha = sdk.git_sha;
  }

  -- the conditions are asked for, which the certificates are made of
  with_conditions : Reply Client × World → Reply Client × World
  with_conditions (failed e, w) = (failed e, w)
  with_conditions (replied client, w) = (replied (sdk.set_list_conditions true client), w)

  -- `NewDescopeClientWithProjectID`
  unfoldable pub new_descope_client_with_project_id : Text → World → Reply Client × World
  unfolding client_config with_conditions
  new_descope_client_with_project_id [] w = (failed (sdk.unknown_project empty_project_id), w)
  new_descope_client_with_project_id (c ∷ id) w =
      with_conditions (sdk.new_with_config (client_config (c ∷ id)) w)
