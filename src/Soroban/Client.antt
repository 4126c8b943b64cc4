-- ===== src/Soroban/Client.antt =====
-- internal/soroban/client.go: a JSON-RPC call with its backup endpoints. The network and
-- encoding/json are the record `Transport`.
pub mod Failover
use lumen_liquid_backend.Base.{
  ℕ, suc, ◌+◌, Bool, true, false, not, ◌||◌, Option, none, some, List, [], ◌∷◌, if◌then◌else◌, ◌==◌,
  text_eq, leb, nat_beq,
}
use lumen_liquid_backend.Base.Text.{Text}
use lumen_liquid_backend.Base.Int.{ℤ}

-- `Client`; the HTTP client is in `Transport`.
pub record Client : Type 0 where
  pub urls : List Text
  pub id_seq : ℕ

abbrev pub non_empty : List Text → List Text
non_empty [] = []
non_empty (u ∷ us) = let rest = non_empty us in if u == [] then rest else u ∷ rest

abbrev pub or_one_empty : List Text → List Text
or_one_empty [] = [] ∷ []
or_one_empty (u ∷ us) = u ∷ us

-- `New`
unfoldable pub new_client : Text → List Text → Client
new_client url backups = record { urls = or_one_empty (non_empty (url ∷ backups)); id_seq = 0 }

-- `RPCError`
pub record RpcFault : Type 0 where
  pub code : ℤ
  pub message : Text

-- `HTTPError`, `RPCError`, and every other error.
pub data CallError : Type 0 where
  status_error : ℕ → Text → CallError
  rpc_error : RpcFault → CallError
  transport_error : CallError

pub data CallResult (A : Type 0) : Type 0 where
  call_ok : A → CallResult A
  failed : CallError → CallResult A

pub record HttpReply : Type 0 where
  pub status_code : ℕ
  pub body : Text

-- `rpcResp`: the raw result, and the error where there is one.
pub record RpcResp : Type 0 where
  pub result : Text
  pub error : Option RpcFault

-- `post` is the request with its reply read to the end; `marshal` writes the request of a method
-- and an id; `out` reads a raw result. `none` is an error.
pub record Transport (A : Type 0) : Type 0 where
  pub marshal : Text → ℕ → Option Text
  pub post : Text → Text → Option HttpReply
  pub rpc_resp : Text → Option RpcResp
  pub out : Text → Option A

unfoldable pub is_rate_limit : CallError → Bool
is_rate_limit (status_error n body) = nat_beq n 429
is_rate_limit (rpc_error fault) = false
is_rate_limit transport_error = false

unfoldable pub should_failover : CallError → Bool
should_failover (status_error n body) = nat_beq n 429 || leb 500 n
should_failover (rpc_error fault) = false
should_failover transport_error = true

module _ {A : Type 0} (net : Transport A) where
  abbrev read_result : Option A → CallResult A
  read_result none = failed transport_error
  read_result (some a) = call_ok a

  abbrev result_of : Option RpcFault → Text → CallResult A
  result_of (some fault) result = failed (rpc_error fault)
  result_of none result = read_result (net.out result)

  abbrev decoded_reply : Option RpcResp → CallResult A
  decoded_reply none = failed transport_error
  decoded_reply (some r) = result_of r.error r.result

  abbrev replied : Option HttpReply → CallResult A
  replied none = failed transport_error
  replied (some reply) =
      if nat_beq reply.status_code 200
      then decoded_reply (net.rpc_resp reply.body)
      else failed (status_error reply.status_code reply.body)

  unfoldable pub call_one : Text → Text → CallResult A
  call_one body url = replied (net.post url body)

  abbrev is_last : List Text → Bool
  is_last [] = true
  is_last (u ∷ us) = false

  -- The loop over the endpoints; `last_err` is what is left when there is none.
  unfoldable pub try_urls : Text → List Text → CallError → CallResult A
  try_urls body [] last_err = failed last_err
  try_urls body (url ∷ urls) last_err = elim (call_one body url) [
    | call_ok a ↦ call_ok a
    | failed e ↦
        let later = try_urls body urls e in
        if not (should_failover e) || is_last urls then failed e else later
  ]

  abbrev marshaled : List Text → Option Text → CallResult A
  marshaled urls none = failed transport_error
  marshaled urls (some body) = try_urls body urls transport_error

  -- `Call`, with the counter of the ids.
  unfoldable pub call : Text → Client → CallResult A × Client
  call method c =
      let id = c.id_seq + 1 in (marshaled c.urls (net.marshal method id), record c { id_seq = id })
