-- ===== src/Agent/Client.antt =====
-- `RegisterNode`, `Poll` and `SendReport` of cmd/agent/main.go over an unknown HTTP client.
mod Laws
pub mod Registration
mod Tests
use helvilette.Prelude.{
  ℕ, String, Bool, true, false, Option, none, some, Result, ok, err, List, [], ◌∷◌, is_nat,
  if◌then◌else◌,
}
use helvilette.Prelude.Dict.{Dict}
use helvilette.FilePath.{◌<>◌}
use helvilette.Types.{Job, Report}
use helvilette.Agent.{AgentConfiguration}

-- `status` is the status line.
pub record HttpResponse : Type 0 where
  pub code : ℕ
  pub status : String
  pub body : String

-- The client, and the JSON of what is sent and received. A post is of "application/json".
pub record Client (W : Type 0) : Type 0 where
  pub get_url : W → String → W × Result String HttpResponse
  pub post : W → String → String → W × Result String HttpResponse
  pub marshal_registration : String → Dict String → String
  pub marshal_report : Report → Result String String
  pub decode_job : String → Result String Job

pub data PollError : Type 0 where
  unconnected conflict : String → PollError
  unexpected_status : ℕ → String → PollError
  undecoded : String → PollError

pub data SendError : Type 0 where
  unmarshalled unsent returned_status : String → SendError

poll_body : Result String Job → Result PollError (Option Job)
poll_body (err e) = err (undecoded e)
poll_body (ok job) = ok (some job)

module _ {W : Type 0} (C : Client W) where
  poll_response : HttpResponse → Result PollError (Option Job)
  poll_response resp =
      if is_nat 409 resp.code
      then err (conflict resp.body)
      else if is_nat 204 resp.code
      then ok none
      else if is_nat 200 resp.code
      then poll_body (C.decode_job resp.body)
      else err (unexpected_status resp.code resp.body)

abbrev sent : Result String HttpResponse → Option SendError
sent (err e) = some (unsent e)
sent (ok resp) = if is_nat 200 resp.code then none else some (returned_status resp.status)

abbrev pub is_accepted : Result String HttpResponse → Bool
is_accepted (err e) = false
is_accepted (ok resp) = is_nat 200 resp.code

module _ {W Duration : Type 0} (C : Client W) where
  unfoldable pub poll : AgentConfiguration Duration → W → W × Result PollError (Option Job)
  unfolding poll_response poll_body
  poll config w =
      let (w', result) = C.get_url w (config.othela_url <> "/sync/" <> config.node_id) in
      elim result [ err e ↦ (w', err (unconnected e)) | ok resp ↦ (w', poll_response C resp) ]

  post_report : AgentConfiguration Duration → String → W → W × Option SendError
  post_report config data_ w =
      let (w', result) = C.post w (config.othela_url <> "/report") data_ in (w', sent result)

  unfoldable pub send_report : AgentConfiguration Duration → Report → W → W × Option SendError
  unfolding post_report
  send_report config report w = elim (C.marshal_report report) [
    | err e ↦ (w, some (unmarshalled e))
    | ok text ↦ post_report config text w
  ]

  -- `RegisterNode` loops until it is accepted or cancelled. Each element says whether the context is
  -- cancelled at the top of one round and whether it is during the wait at its end.
  unfoldable pub register_node :
      AgentConfiguration Duration → List (Bool × Bool) → W → W × Option Bool
  register_node config [] w = (w, none)
  register_node config ((before, during) ∷ rounds) w =
      let (w', result) =
        C.post w (config.othela_url <> "/nodes/register")
          (C.marshal_registration config.node_id config.labels) in
      let later = register_node config rounds w' in
      if before
      then (w, some false)
      else if is_accepted result
      then (w', some true)
      else if during
      then (w', some false)
      else later
