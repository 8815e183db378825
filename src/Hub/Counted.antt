-- ===== src/Hub/Counted.antt =====
-- The gauge of the clients online through the hub's steps, and the hub under its observer.
use mizuflow.Base.{
  ℕ, ◌+◌, ◌≡◌, refl, sym, ap, ◌∙◌, true, false, inl, inr, Bool-cases, List, [], ◌∷◌, arith, leb,
  length, ◌==◌,
}
use mizuflow.Api.{Message}
use mizuflow.Hub.Sets.{has, add_id, remove_id, members, has-add_id, has-remove_id}
use mizuflow.Hub.{
  Hub, register, remove_from_shards, remove_client, send_message, send_all, broadcast_message,
  heartbeat_message,
}
use mizuflow.Hub.Metered.{
  Metered, register_metered, remove_metered, send_metered, send_all_metered, broadcast_metered,
  heartbeat_metered, MeteredStep, registers, unregisters, broadcasts, beats, Distinct, IsCounted,
}

length-add_id :
    (id : ℕ) (ids : List ℕ) → has id ids ≡ false → length (add_id id ids) ≡ length ids + 1
unfolding has add_id
length-add_id id [] h = refl
length-add_id id (j ∷ js) h = elim (Bool-cases (id == j)) [
  | inl t ↦ absurd (ground arith)
  | inr t ↦ rw t (omega (arith, length-add_id id js (ground arith)))
]

add_id-Distinct :
    (id : ℕ) (ids : List ℕ) → has id ids ≡ false → Distinct ids → Distinct (add_id id ids)
unfolding has add_id
add_id-Distinct id [] h d = (refl, _)
add_id-Distinct id (j ∷ js) h d = elim (Bool-cases (id == j)) [
  | inl t ↦ absurd (ground arith)
  | inr t ↦ rw t (ground (arith, has-add_id j id js, d.0), add_id-Distinct id js (ground arith) d.1)
]

remove_id-Distinct : (id : ℕ) (ids : List ℕ) → Distinct ids → Distinct (remove_id id ids)
unfolding remove_id
remove_id-Distinct id [] d = _
remove_id-Distinct id (j ∷ js) d = elim (Bool-cases (id == j)) [
  | inl t ↦ rw t (remove_id-Distinct id js d.1)
  | inr t ↦ rw t (ground (arith, has-remove_id j id js, d.0), remove_id-Distinct id js d.1)
]

length-remove_id_absent :
    (id : ℕ) (ids : List ℕ) → has id ids ≡ false → length (remove_id id ids) ≡ length ids
unfolding has remove_id
length-remove_id_absent id [] h = refl
length-remove_id_absent id (j ∷ js) h = elim (Bool-cases (id == j)) [
  | inl t ↦ absurd (ground arith)
  | inr t ↦ rw t (omega (arith, length-remove_id_absent id js (ground arith)))
]

length-remove_id :
    (id : ℕ) (ids : List ℕ)
    → has id ids ≡ true
    → Distinct ids
    → length (remove_id id ids) + 1 ≡ length ids
unfolding has remove_id
length-remove_id id [] h d = absurd (cc)
length-remove_id id (j ∷ js) h d = elim (Bool-cases (id == j)) [
  | inl t ↦
      let same : id ≡ j = ground arith in
      rw t (omega (arith, length-remove_id_absent id js (rw (sym same) at d.0)))
  | inr t ↦ rw t (omega (arith, length-remove_id id js (ground arith) d.1))
]

clients-register : (id : ℕ) (h : Hub) → (register id h).clients ≡ add_id id h.clients
unfolding register
clients-register id h = ground arith

clients-remove_client :
    (id : ℕ) (h : Hub)
    → has id h.clients ≡ true
    → (remove_client id h).clients ≡ remove_id id h.clients
unfolding remove_client remove_from_shards
clients-remove_client id h t = ground arith

register-IsCounted :
    (id : ℕ) (m : Metered)
    → has id m.hub.clients ≡ false
    → IsCounted m
    → IsCounted (register_metered id m)
unfolding register_metered
register-IsCounted id m new c = record {
  online =
      rw (clients-register id m.hub) (omega (arith, c.online, length-add_id id m.hub.clients new));
  distinct = rw (clients-register id m.hub) (add_id-Distinct id m.hub.clients new c.distinct);
}

remove-IsCounted : (id : ℕ) (m : Metered) → IsCounted m → IsCounted (remove_metered id m)
unfolding remove_metered
remove-IsCounted id m c = elim (Bool-cases (has id m.hub.clients)) [
  | inr t ↦ rw t c
  | inl t ↦ rw t (record {
    online =
        rw (clients-remove_client id m.hub t)
          (omega (arith, c.online, length-remove_id id m.hub.clients t c.distinct));
    distinct =
        rw (clients-remove_client id m.hub t) (remove_id-Distinct id m.hub.clients c.distinct);
  })
]

send-IsCounted :
    (id : ℕ) (msg : Message) (m : Metered) → IsCounted m → IsCounted (send_metered id msg m)
unfolding send_metered send_message
send-IsCounted id msg m c = elim (Bool-cases (leb 128 (length (m.hub.client id).queue))) [
  | inl t ↦ rw t (remove-IsCounted id m c)
  | inr t ↦ rw t (record { online = c.online; distinct = c.distinct })
]

send_all-IsCounted :
    (ids : List ℕ) (msg : Message) (m : Metered)
    → IsCounted m
    → IsCounted (send_all_metered ids msg m)
unfolding send_all_metered
send_all-IsCounted [] msg m c = c
send_all-IsCounted (id ∷ ids) msg m c =
    send_all-IsCounted ids msg (send_metered id msg m) (send-IsCounted id msg m c)

-- Every step of the hub keeps the gauge of the clients online at the number of clients that the hub has, where a client
-- registers under a number that the hub does not have: the gauge is the increments less the decrements.
pub MeteredStep-IsCounted : {m m' : Metered} → MeteredStep m m' → IsCounted m → IsCounted m'
unfolding broadcast_metered heartbeat_metered
MeteredStep-IsCounted (registers id m new) c = register-IsCounted id m new c
MeteredStep-IsCounted (unregisters id m) c = remove-IsCounted id m c
MeteredStep-IsCounted (broadcasts msg m) c =
    let m1 = send_all_metered m.hub.wildcards msg m in
    let c1 = send_all-IsCounted m.hub.wildcards msg m c in
    let c2 = send_all-IsCounted (members msg.env msg.namespace m1.hub.shards) msg m1 c1 in
    record { online = c2.online; distinct = c2.distinct }
MeteredStep-IsCounted (beats m) c = send_all-IsCounted m.hub.clients heartbeat_message m c

hub-remove_metered : (id : ℕ) (m : Metered) → (remove_metered id m).hub ≡ remove_client id m.hub
unfolding remove_metered remove_client
hub-remove_metered id m = elim (Bool-cases (has id m.hub.clients)) [
  | inl t ↦ rw t refl
  | inr t ↦ rw t refl
]

hub-send_metered :
    (id : ℕ) (msg : Message) (m : Metered) → (send_metered id msg m).hub ≡ send_message id msg m.hub
unfolding send_metered send_message
hub-send_metered id msg m = elim (Bool-cases (leb 128 (length (m.hub.client id).queue))) [
  | inl t ↦ rw t (hub-remove_metered id m)
  | inr t ↦ rw t refl
]

hub-send_all_metered :
    (ids : List ℕ) (msg : Message) (m : Metered)
    → (send_all_metered ids msg m).hub ≡ send_all ids msg m.hub
unfolding send_all_metered send_all
hub-send_all_metered [] msg m = refl
hub-send_all_metered (id ∷ ids) msg m =
    hub-send_all_metered ids msg (send_metered id msg m)
    ∙ ap (send_all ids msg) (hub-send_metered id msg m)

-- The observer has no part in what a broadcast does.
pub hub-broadcast_metered :
    (msg : Message) (m : Metered) → (broadcast_metered msg m).hub ≡ broadcast_message msg m.hub
unfolding broadcast_metered broadcast_message
hub-broadcast_metered msg m =
    let m1 = send_all_metered m.hub.wildcards msg m in
    hub-send_all_metered (members msg.env msg.namespace m1.hub.shards) msg m1
    ∙ ap (λ (h : Hub). send_all (members msg.env msg.namespace h.shards) msg h)
        (hub-send_all_metered m.hub.wildcards msg m)
