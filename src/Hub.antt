-- ===== src/Hub.antt =====
-- internal/service/hub.go: the hub that hands every message to the streams that ask for it. Each case of its select is
-- one step; a client is known by a number, as the code knows it by its address.
pub mod Sets
pub mod Open
pub mod Requests
pub mod Metered
pub mod Counted
mod Tests
use mizuflow.Base.{
  ℕ, ◌+◌, String, Bool, true, false, ◌||◌, Option, none, some, List, [], ◌∷◌, ◌++◌, ◌==◌, leb,
  length, if◌then◌else◌,
}
use mizuflow.Base.Int.{ℤ, pos}
use mizuflow.Api.{Message, zero_message}
use mizuflow.Stream.{contains}
use Sets.{has, add_id, remove_id, Shards, add_to, remove_from, members}

-- `Client`: its channel `Send` holds 128 messages, and `closed` counts how often it was closed.
pub record Client : Type 0 where
  pub env : String
  pub namespaces : List String
  pub queue : List Message
  pub closed : ℕ

-- The channels of the clients are kept by number, since the streams share them with the hub.
pub record Hub : Type 0 where
  pub clients : List ℕ
  pub shards : Shards
  pub wildcards : List ℕ
  pub client : ℕ → Client

abbrev pub is_wildcard : Client → Bool
is_wildcard c = contains "*" c.namespaces

abbrev pub set_client : ℕ → Client → (ℕ → Client) → ℕ → Client
set_client id c f j = if j == id then c else f j

-- `case client := <-h.Register`, with `addToShards`.
unfoldable pub register : ℕ → Hub → Hub
register id h =
    let c = h.client id in
    if is_wildcard c
    then record h { clients = add_id id h.clients; wildcards = add_id id h.wildcards }
    else record h { clients = add_id id h.clients; shards = add_to id c.env c.namespaces h.shards }

-- `removeFromShards`
unfoldable pub remove_from_shards : ℕ → Hub → Hub
remove_from_shards id h =
    if has id h.wildcards
    then record h { wildcards = remove_id id h.wildcards }
    else record h { shards = remove_from id (h.client id).env (h.client id).namespaces h.shards }

abbrev pub closed_once_more : Client → Client
closed_once_more c = record c { closed = c.closed + 1 }

-- `removeClient`, and `case client := <-h.Unregister`. A second close of a channel would panic.
unfoldable pub remove_client : ℕ → Hub → Hub
unfolding remove_from_shards
remove_client id h =
    let h' = remove_from_shards id (record h { clients = remove_id id h.clients }) in
    if has id h.clients
    then record h' { client = set_client id (closed_once_more (h.client id)) h.client }
    else h

-- `sendMessage`: a client whose channel is full is removed.
unfoldable pub send_message : ℕ → Message → Hub → Hub
unfolding remove_client
send_message id msg h =
    if leb 128 (length (h.client id).queue) then remove_client id h else record h {
      client =
          set_client id (record (h.client id) { queue = (h.client id).queue ++ msg ∷ [] }) h.client;
    }

unfoldable pub send_all : List ℕ → Message → Hub → Hub
unfolding send_message
send_all [] msg h = h
send_all (id ∷ ids) msg h = send_all ids msg (send_message id msg h)

-- `case message := <-h.Broadcast`: the wildcards, and then the shard of the message.
unfoldable pub broadcast_message : Message → Hub → Hub
unfolding send_all
broadcast_message msg h =
    let h' = send_all h.wildcards msg h in send_all (members msg.env msg.namespace h'.shards) msg h'

abbrev pub heartbeat_message : Message
heartbeat_message = record zero_message { type_name = "ping" }

-- `case <-heartbeatTicker.C`
unfoldable pub heartbeat : Hub → Hub
unfolding send_all
heartbeat h = send_all h.clients heartbeat_message h
