-- ===== src/Authclient.antt =====
-- internal/authclient/client.go: the token validator on the gRPC client of the Auth service.
use linkpulse_link.Base.{Bool, true, false}
use linkpulse_link.Base.Text.{Text}
use linkpulse_link.HttpApi.Middleware.{Verdict, valid_user, invalid_token, unavailable}

-- What `ValidateToken` returns: the fields of the response, or an error; a call that takes longer
-- than three seconds is an error.
pub data RpcReply : Type 0 where
  response : Bool → Text → RpcReply
  rpc_failed : RpcReply

unfoldable pub verdict : RpcReply → Verdict
verdict rpc_failed = unavailable
verdict (response false user_id) = invalid_token
verdict (response true user_id) = valid_user user_id

-- `Client.Validate`
unfoldable pub validate : (Text → RpcReply) → Text → Verdict
unfolding verdict
validate call token = verdict (call token)
