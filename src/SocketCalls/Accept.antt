-- ===== src/SocketCalls/Accept.antt =====
-- The accept pump of hal/ti/cc3501e_hw_ti_sock.c: what becomes of the connections that it takes.
use cc3501e_bridge_firmware.Base.{
  ℕ, ◌-◌, ◌≤◌, ◌≡◌, ◌⊎◌, inl, inr, refl, sym, ap, ◌∙◌, Bool, true, false, Option, none, some, List,
  [], ◌∷◌, ◌++◌, append-nil, append_assoc, leb, ◌==◌, length, length-take, Bool-cases, arith,
}
use cc3501e_bridge_firmware.Wire.{Layout}
use cc3501e_bridge_firmware.EventRing
use cc3501e_bridge_firmware.EventRing.{Ring, slots}
use cc3501e_bridge_firmware.EventRing.Queue.{Event, put}
use cc3501e_bridge_firmware.EventRing.Invariant.{IsValid, push-IsValid}
use cc3501e_bridge_firmware.EventRing.Refine.{contents, payload_of, push_refines}
use cc3501e_bridge_firmware.SocketCalls.{
  rcvtimeo_us, Peer, Lwip, accepted_event, announced, accept_on, accept_one, accept_pump,
}

-- `owned` are the sockets that lwip_accept() returned and that nobody has closed, the newest first.
pub record Owns {S : Type 0} (l : Lwip S) (owned : S → List ℕ) : Type 0 where
  pub refused : (s : S) (fd : ℕ) → (l.accept s fd).0 ≡ none → owned (l.accept s fd).1 ≡ owned s
  pub accepts :
      (s : S) (fd : ℕ) (p : Peer)
      → (l.accept s fd).0 ≡ some p
      → owned (l.accept s fd).1 ≡ p.fd ∷ owned s
  pub addresses : (s : S) (fd : ℕ) (p : Peer) → (l.accept s fd).0 ≡ some p → 4 ≤ length p.addr
  pub closes :
      (s : S) (fd : ℕ) (rest : List ℕ) → owned s ≡ fd ∷ rest → owned (l.close s fd).1 ≡ rest
  pub sets : (s : S) (fd us : ℕ) → owned (l.set_rcvtimeo s fd us).1 ≡ owned s

put-cases :
    (cap : ℕ) (q : List Event) (e : Event)
    → (put cap q e ≡ (q, false)) ⊎ (put cap q e ≡ (q ++ e ∷ [], true))
unfolding put
put-cases cap q e = elim (Bool-cases (leb cap (length q))) [
  | inl y ↦ inl (rw y refl)
  | inr n ↦ inr (rw n refl)
]

module _ {S : Type 0} (l : Lwip S) (w : Layout) where
  -- The events of connections, each with the listening handle it came in on.
  abbrev pub event_for : ℕ × Peer → Event
  event_for (lh, p) = (l.event_accepted, payload_of (some (accepted_event l w lh p)) 12)

  abbrev pub events_for : List (ℕ × Peer) → List Event
  events_for [] = []
  events_for (c ∷ more) = event_for c ∷ events_for more

  events_for-append :
      (xs ys : List (ℕ × Peer)) → events_for (xs ++ ys) ≡ events_for xs ++ events_for ys
  events_for-append [] ys = refl
  events_for-append (x ∷ xs) ys = ap (λ t. event_for x ∷ t) (events_for-append xs ys)

-- The sockets of connections, on top of `rest`, the newest first.
abbrev pub left_open : List (ℕ × Peer) → List ℕ → List ℕ
left_open [] rest = rest
left_open (c ∷ more) rest = left_open more (c.1.fd ∷ rest)

left_open-append :
    (xs ys : List (ℕ × Peer)) (rest : List ℕ)
    → left_open (xs ++ ys) rest ≡ left_open ys (left_open xs rest)
left_open-append [] ys rest = refl
left_open-append (x ∷ xs) ys rest = left_open-append xs ys (x.1.fd ∷ rest)

module _ {S : Type 0} (l : Lwip S) (w : Layout) (owned : S → List ℕ) (owns : Owns l owned) where
  -- From `ring` and `s` on: the sockets that are left open are those of the events that were queued.
  abbrev pub Announces : Ring → S → Ring × S → Type 0
  Announces ring s r =
      ((conns : List (ℕ × Peer)) × (contents r.0 ≡ contents ring ++ events_for l w conns)
        × (owned r.1 ≡ left_open conns (owned s)))
      × IsValid r.0

  announced-Announces :
      (lh : ℕ) (p : Peer) (ring : Ring) (s s' : S) (r : Ring × Bool)
      → owned s' ≡ p.fd ∷ owned s
      → IsValid r.0
      → (contents r.0, r.1) ≡ put slots (contents ring) (event_for l w (lh, p))
      → Announces ring s (announced l p.fd s' r)
  unfolding announced
  announced-Announces lh p ring s s' (ring', true) o v e =
      elim (put-cases slots (contents ring) (event_for l w (lh, p))) [
        | inl full ↦ let x : true ≡ false = ap (λ (t : List Event × Bool). t.1) (e ∙ full) in cc x
        | inr queued ↦ (((lh, p) ∷ [], ap (λ (t : List Event × Bool). t.0) (e ∙ queued), o), v)
      ]
  announced-Announces lh p ring s s' (ring', false) o v e =
      elim (put-cases slots (contents ring) (event_for l w (lh, p))) [
        | inl full ↦ (
          (
            [],
            ap (λ (t : List Event × Bool). t.0) (e ∙ full) ∙ sym (append-nil (contents ring)),
            owns.closes s' p.fd (owned s) o,
          ),
          v,
        )
        | inr queued ↦
            let x : false ≡ true = ap (λ (t : List Event × Bool). t.1) (e ∙ queued) in cc x
      ]

  accept_on-Announces :
      (lh : ℕ) (ring : Ring) (s : S) (a : Option Peer × S)
      → IsValid ring
      → (a.0 ≡ none → owned a.1 ≡ owned s)
      → ((p : Peer) → a.0 ≡ some p → (owned a.1 ≡ p.fd ∷ owned s) × (4 ≤ length p.addr))
      → Announces ring s (accept_on l w lh ring a)
  unfolding accept_on
  accept_on-Announces lh ring s (none, s1) v quiet taken =
      (([], sym (append-nil (contents ring)), quiet refl), v)
  accept_on-Announces lh ring s (some p, s1) v quiet taken =
      let (o, four) = taken p refl in
      let ev = accepted_event l w lh p in
      let s2 = (l.set_rcvtimeo s1 p.fd rcvtimeo_us).1 in
      elim (Bool-cases (leb 65535 p.fd)) [
        | inl big ↦
            rw big (([], sym (append-nil (contents ring)), owns.closes s1 p.fd (owned s) o), v)
        | inr fits ↦ rw fits (
            announced-Announces lh p ring s s2 (EventRing.push ring l.event_accepted (some ev) 12)
              (owns.sets s1 p.fd rcvtimeo_us ∙ o)
              (push-IsValid ring l.event_accepted (some ev) 12 v)
              (push_refines ring l.event_accepted (some ev) 12 v
                (omega (arith, length-take 4 p.addr))).0)
      ]

  accept_one-Announces :
      (lh : ℕ) (ring : Ring) (s : S) → IsValid ring → Announces ring s (accept_one l w lh ring s)
  unfolding accept_one
  accept_one-Announces lh ring s v = elim (Bool-cases (lh == 0)) [
    | inl z ↦ rw z (([], sym (append-nil (contents ring)), refl), v)
    | inr z ↦ rw z (
        accept_on-Announces lh ring s (l.accept s (lh - 1)) v (owns.refused s (lh - 1))
          (λ p e. (owns.accepts s (lh - 1) p e, owns.addresses s (lh - 1) p e)))
  ]

  -- The accept pump leaks no socket and announces no closed one: the sockets that it leaves open
  -- are, in their order, those of the events that it has queued, and the ring stays valid. The ring is
  -- valid before, and the stack returns a fresh socket with the four bytes of an address.
  pub accept_pump-Announces :
      (table : List ℕ) (ring : Ring) (s : S)
      → IsValid ring
      → Announces ring s (accept_pump l w table ring s)
  unfolding accept_pump
  accept_pump-Announces [] ring s v = (([], sym (append-nil (contents ring)), refl), v)
  accept_pump-Announces (lh ∷ more) ring s v =
      let r = accept_one l w lh ring s in
      let ((xs, c1, o1), v1) = accept_one-Announces lh ring s v in
      let ((ys, c2, o2), v2) = accept_pump-Announces more r.0 r.1 v1 in
      (
        (
          xs ++ ys,
          c2
              ∙ ap (λ t. t ++ events_for l w ys) c1
              ∙ append_assoc (contents ring) (events_for l w xs) (events_for l w ys)
              ∙ ap (λ t. contents ring ++ t) (sym (events_for-append l w xs ys)),
          o2 ∙ ap (λ t. left_open ys t) o1 ∙ sym (left_open-append xs ys (owned s)),
        ),
        v2,
      )
