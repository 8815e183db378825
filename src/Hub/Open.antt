-- ===== src/Hub/Open.antt =====
-- internal/service/hub.go: the channels of the clients, the wildcards and the shards through the hub's steps.
use mizuflow.Base.{
  ℕ, ◌≤◌, String, ◌≡◌, true, false, inl, inr, Bool-cases, List, [], ◌∷◌, ◌++◌, arith, leb, length,
  str_eq,
}
use mizuflow.Api.{Message}
use mizuflow.Stream.{contains}
use mizuflow.Hub.Sets.{
  has, members, Shards, has-add_id, has-remove_id, members-add_to, members-remove_from,
}
use mizuflow.Hub.{
  Client, Hub, is_wildcard, set_client, register, remove_from_shards, remove_client, send_message,
  send_all, broadcast_message, heartbeat, heartbeat_message,
}

-- A registered client's channel is open; what stands among the wildcards or in a shard is registered, and stands in
-- the places that its own fields name; and no channel was closed twice.
pub record IsOpen (clients wildcards : List ℕ) (shards : Shards) (client : ℕ → Client)
    : Type 0 where
  pub is_open : (j : ℕ) → has j clients ≡ true → (client j).closed ≡ 0
  pub wild :
      (j : ℕ) → has j wildcards ≡ true → (has j clients ≡ true) × (is_wildcard (client j) ≡ true)
  pub shard :
      (j : ℕ) (e n : String)
      → has j (members e n shards) ≡ true
      → (has j clients ≡ true)
        × (is_wildcard (client j) ≡ false)
        × (str_eq (client j).env e ≡ true)
        × (contains n (client j).namespaces ≡ true)
  pub once : (j : ℕ) → (client j).closed ≤ 1

abbrev pub HubIsOpen : Hub → Type 0
HubIsOpen h = IsOpen h.clients h.wildcards h.shards h.client

register-IsOpen :
    (id : ℕ) (h : Hub) → (h.client id).closed ≡ 0 → HubIsOpen h → HubIsOpen (register id h)
unfolding register
register-IsOpen id h fresh v = elim (Bool-cases (is_wildcard (h.client id))) [
  | inl t ↦ rw t (record {
    is_open = λ j k. ground (arith, has-add_id j id h.clients, v.is_open j);
    wild = λ j k. ground (arith, has-add_id j id h.clients, has-add_id j id h.wildcards, v.wild j);
    shard = λ j e n k. ground (arith, has-add_id j id h.clients, v.shard j e n);
    once = v.once;
  })
  | inr t ↦ rw t (record {
    is_open = λ j k. ground (arith, has-add_id j id h.clients, v.is_open j);
    wild = λ j k. ground (arith, has-add_id j id h.clients, v.wild j);
    shard = λ j e n k. ground (
      arith,
      has-add_id j id h.clients,
      members-add_to j id e n (h.client id).env (h.client id).namespaces h.shards,
      v.shard j e n,
    );
    once = v.once;
  })
]

remove_client-IsOpen : (id : ℕ) (h : Hub) → HubIsOpen h → HubIsOpen (remove_client id h)
unfolding remove_client remove_from_shards
remove_client-IsOpen id h v = elim (Bool-cases (has id h.clients)) [
  | inr t ↦ rw t v
  | inl t ↦ elim (Bool-cases (has id h.wildcards)) [
    | inl w ↦
        rw (t, w)
          (record {
            is_open = λ j k. ground (arith, has-remove_id j id h.clients, v.is_open j);
            wild = λ j k.
                ground
                  (arith, has-remove_id j id h.clients, has-remove_id j id h.wildcards, v.wild j);
            shard =
                λ j e n k. ground (arith, has-remove_id j id h.clients, v.shard j e n, v.wild id);
            once = λ j. ground (arith, v.once j, v.is_open id t);
          })
    | inr w ↦
        rw (t, w)
          (record {
            is_open = λ j k. ground (arith, has-remove_id j id h.clients, v.is_open j);
            wild = λ j k. ground (arith, has-remove_id j id h.clients, v.wild j);
            shard = λ j e n k. ground (
              arith,
              has-remove_id j id h.clients,
              members-remove_from j id e n (h.client id).env (h.client id).namespaces h.shards,
              v.shard j e n,
            );
            once = λ j. ground (arith, v.once j, v.is_open id t);
          })
  ]
]

queue-IsOpen :
    (id : ℕ) (queue : List Message) (h : Hub)
    → HubIsOpen h
    → HubIsOpen
        (record h { client = set_client id (record (h.client id) { queue = queue }) h.client })
queue-IsOpen id queue h v = record {
  is_open = λ j k. ground (arith, v.is_open j);
  wild = λ j k. ground (arith, v.wild j);
  shard = λ j e n k. ground (arith, v.shard j e n);
  once = λ j. ground (arith, v.once j);
}

send_message-IsOpen :
    (id : ℕ) (msg : Message) (h : Hub) → HubIsOpen h → HubIsOpen (send_message id msg h)
unfolding send_message
send_message-IsOpen id msg h v = elim (Bool-cases (leb 128 (length (h.client id).queue))) [
  | inl t ↦ rw t (remove_client-IsOpen id h v)
  | inr t ↦ rw t (queue-IsOpen id ((h.client id).queue ++ msg ∷ []) h v)
]

send_all-IsOpen :
    (ids : List ℕ) (msg : Message) (h : Hub) → HubIsOpen h → HubIsOpen (send_all ids msg h)
unfolding send_all
send_all-IsOpen [] msg h v = v
send_all-IsOpen (id ∷ ids) msg h v =
    send_all-IsOpen ids msg (send_message id msg h) (send_message-IsOpen id msg h v)

-- The steps of the hub, and of a stream that takes a message from its channel. A client registers with a channel that
-- was never closed.
pub data HubStep : Hub → Hub → Type 0 where
  registers : (id : ℕ) (h : Hub) → (h.client id).closed ≡ 0 → HubStep h (register id h)
  unregisters : (id : ℕ) (h : Hub) → HubStep h (remove_client id h)
  broadcasts : (msg : Message) (h : Hub) → HubStep h (broadcast_message msg h)
  beats : (h : Hub) → HubStep h (heartbeat h)
  takes :
      (id : ℕ) (msg : Message) (queue : List Message) (h : Hub)
      → (h.client id).queue ≡ msg ∷ queue
      → HubStep h
          (record h { client = set_client id (record (h.client id) { queue = queue }) h.client })

-- Every step of the hub keeps these: whoever is registered has an open channel; the wildcards and the shards hold
-- registered clients alone, each in the places that its environment and namespaces name; and no channel is closed more
-- than once.
pub HubStep-IsOpen : {h h' : Hub} → HubStep h h' → HubIsOpen h → HubIsOpen h'
unfolding broadcast_message heartbeat
HubStep-IsOpen (registers id h fresh) v = register-IsOpen id h fresh v
HubStep-IsOpen (unregisters id h) v = remove_client-IsOpen id h v
HubStep-IsOpen (broadcasts msg h) v =
    let h' : Hub = send_all h.wildcards msg h in
    send_all-IsOpen (members msg.env msg.namespace h'.shards) msg h'
      (send_all-IsOpen h.wildcards msg h v)
HubStep-IsOpen (beats h) v = send_all-IsOpen h.clients heartbeat_message h v
HubStep-IsOpen (takes id msg queue h e) v = queue-IsOpen id queue h v
