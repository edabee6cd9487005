-- ===== src/Users/Controller.antt =====
-- modules/users/users.controller.ts and dto/user.response.ts. The body has passed the validation
-- pipe.
pub mod Ownership
use ai_search_api.Base.{ℕ, String, false, Option}
use ai_search_api.Base.Result.{Result, ok, err}
use ai_search_api.Base.Text.{Text}
use ai_search_api.Core.Interceptors.{Body, value, nothing}
use ai_search_api.Core.Pipeline.{Route, Response}
use ai_search_api.Auth.State.{User, State, Request, Platform}
use ai_search_api.Auth.Access.{AuthenticatedUser, Server, Arrival, serve}
use ai_search_api.Users.{get_active_by_id, update_profile, soft_delete}

pub record UserResponse : Type 0 where
  pub id : String
  pub email : Text
  pub display_name : Option Text
  pub created_at : ℕ

abbrev pub from : User → UserResponse
from user = record {
  id = user.id;
  email = user.email;
  display_name = user.display_name;
  created_at = user.created_at;
}

pub data UsersCall : Type 0 where
  me_call remove_call : UsersCall
  update_call : Option (Option Text) → UsersCall

abbrev pub route : UsersCall → Route
route me_call = record { status = 200; skip_envelope = false }
route (update_call display_name) = record { status = 200; skip_envelope = false }
route remove_call = record { status = 204; skip_envelope = false }

abbrev pub profile : Result User → Result (Body UserResponse)
profile (err e) = err e
profile (ok user) = ok (value (from user))

abbrev pub removed : Result (Unit {0}) → Result (Body UserResponse)
removed (err e) = err e
removed (ok _) = ok nothing

module _ (p : Platform) (req : Request) where
  unfoldable pub handle_users :
      UsersCall → AuthenticatedUser → Option String → State → Result (Body UserResponse) × State
  unfolding get_active_by_id update_profile soft_delete
  handle_users me_call user tenant s = (profile (get_active_by_id p user.user_id s), s)
  handle_users (update_call display_name) user tenant s =
      let (r, s') = update_profile p req user.user_id display_name s in (profile r, s')
  handle_users remove_call user tenant s =
      let (r, s') = soft_delete p req user.user_id s in (removed r, s')

  unfoldable pub serve_users :
      (server : Server) → Arrival server → UsersCall → State → Response UserResponse × State
  unfolding serve handle_users
  serve_users server arrival call = serve server arrival (route call) (handle_users call)
