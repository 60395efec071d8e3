-- ===== src/Pipeline/Values/Precedence.antt =====
-- pipeline/values.go: which of its three sources a slot takes its value from.
use faber.Common.{
  String, ◌≡◌, refl, sym, ap, ◌∙◌, Bool, true, false, Option, none, some, List, [], ◌∷◌, arith,
  if◌then◌else◌, str_eq, eq_iff, Table, lookup, lookup-put, Option-cases, ◌⊎◌, ◌≢◌, inl, inr,
}
use mathlib.Core.Option.{none-ne-some}
use faber.Pipeline.Values.{
  Source, State, ok, failed, halted, skipped_condition, skipped_dependency, skipped_halt,
  BindingDesc, DataEdge, Bound, bound, unbound, bad, Inputs, InputError, resolved, skipped, refused,
  resolve_binding, add_binding, bind_slots, follow_edge, follow_edges, fill_slot, fill_slots,
  filled, resolve_inputs,
}

-- The first of two that is there.
unfoldable pub or_else {ℓ} : {A : Type ℓ} → Option A → Option A → Option A
or_else none y = y
or_else (some x) y = some x

module _ {A : Type 0} where
  value_of : Bound A → Option A
  value_of (bound v) = some v
  value_of unbound = none
  value_of bad = none

  -- What the bindings say of a slot: the last one for it that has a value.
  unfoldable pub binding_value : List (String × BindingDesc A) → Table A → String → Option A
  unfolding or_else value_of
  binding_value [] params slot = none
  binding_value ((s, b) ∷ bs) params slot =
      or_else (binding_value bs params slot)
        (if str_eq s slot then value_of (resolve_binding b params) else none)

  payload_of : Option (Source A) → String → Option A
  payload_of none port = none
  payload_of (some src) port = lookup port src.payload

  -- What the data edges say of a slot: the payload field of the last one into it.
  unfoldable pub edge_value : List DataEdge → Table (Source A) → String → Option A
  unfolding or_else payload_of
  edge_value [] nodes slot = none
  edge_value (e ∷ es) nodes slot =
      or_else (edge_value es nodes slot)
        (if str_eq e.to_port slot then payload_of (lookup e.from nodes) e.from_port else none)

  -- The declared default of a slot.
  unfoldable pub default_value : List (String × Option A) → String → Option A
  unfolding or_else
  default_value [] slot = none
  default_value ((s, d) ∷ ds) slot =
      or_else (if str_eq s slot then d else none) (default_value ds slot)

  none_some : {P : Type 0} (n : Table A) → none ≡ some n → P
  none_some n e = elim (none-ne-some n e) [ ]

  added :
      (s slot : String) (b : Bound A) (m n : Table A)
      → add_binding s b m ≡ some n
      → lookup slot n ≡ or_else (if str_eq s slot then value_of b else none) (lookup slot m)
  unfolding add_binding or_else value_of
  added s slot (bound v) m n h = ground (arith, h, lookup-put s slot v m)
  added s slot unbound m n h = ground (arith, h)
  added s slot bad m n h = ground (arith, h)

  or_else_assoc : (x y z : Option A) → or_else x (or_else y z) ≡ or_else (or_else x y) z
  unfolding or_else
  or_else_assoc none y z = refl
  or_else_assoc (some x) y z = refl

  lookup-bind_slots :
      (bs : List (String × BindingDesc A)) (params m n : Table A) (slot : String)
      → bind_slots bs params m ≡ some n
      → lookup slot n ≡ or_else (binding_value bs params slot) (lookup slot m)
  unfolding bind_slots binding_value or_else
  lookup-bind_slots [] params m n slot h = ground (arith, h)
  lookup-bind_slots ((s, b) ∷ bs) params m n slot h =
      elim (Option-cases (add_binding s (resolve_binding b params) m)) [
        | inl e ↦ none_some n (rw (e, bind_slots) at h)
        | inr (m', e) ↦
            lookup-bind_slots bs params m' n slot (rw (e, bind_slots) at h)
            ∙ ap (or_else (binding_value bs params slot))
                (added s slot (resolve_binding b params) m m' e)
            ∙ or_else_assoc (binding_value bs params slot)
                (if str_eq s slot then value_of (resolve_binding b params) else none)
                (lookup slot m)
      ]

  resolved_of : Table A → Inputs A → Table A
  resolved_of m (resolved n) = n
  resolved_of m (skipped x) = m
  resolved_of m (refused x) = m

  resolved-cases :
      (i : Inputs A)
      → ((m : Table A) × (i ≡ resolved m))
        ⊎ (((x : String) × (i ≡ skipped x)) ⊎ ((x : InputError) × (i ≡ refused x)))
  resolved-cases (resolved m) = inl (m, refl)
  resolved-cases (skipped x) = inr (inl (x, refl))
  resolved-cases (refused x) = inr (inr (x, refl))

  stopped : {P : Type 0} {i : Inputs A} (n : Table A) → (i ≢ resolved n) → i ≡ resolved n → P
  stopped n h e = elim (h e) [ ]

  followed_by :
      (e : DataEdge) (t : Bool) (st : State) (p m n : Table A) (slot : String) (o : Option A)
      → lookup e.from_port p ≡ o
      → follow_edge e (some (record { terminal = t; status = st; payload = p })) m ≡ resolved n
      → lookup slot n
        ≡ or_else (if str_eq e.to_port slot then lookup e.from_port p else none) (lookup slot m)
  unfolding follow_edge or_else
  followed_by e false st p m n slot o q h = ground (arith, h)
  followed_by e true failed p m n slot o q h = ground (arith, h)
  followed_by e true halted p m n slot o q h = ground (arith, h)
  followed_by e true skipped_condition p m n slot o q h = ground (arith, h)
  followed_by e true skipped_dependency p m n slot o q h = ground (arith, h)
  followed_by e true skipped_halt p m n slot o q h = ground (arith, h)
  followed_by e true ok p m n slot none q h = ground (arith, q, h)
  followed_by e true ok p m n slot (some v) q h =
      ground (arith, q, h, lookup-put e.to_port slot v m)

  followed :
      (e : DataEdge) (o : Option (Source A)) (m n : Table A) (slot : String)
      → follow_edge e o m ≡ resolved n
      → lookup slot n
        ≡ or_else (if str_eq e.to_port slot then payload_of o e.from_port else none) (lookup slot m)
  unfolding follow_edge or_else payload_of
  followed e none m n slot h = ground (arith, h)
  followed e (some src) m n slot h =
      followed_by e src.terminal src.status src.payload m n slot (lookup e.from_port src.payload)
        refl h

  lookup-follow_edges :
      (es : List DataEdge) (nodes : Table (Source A)) (m n : Table A) (slot : String)
      → follow_edges es nodes m ≡ resolved n
      → lookup slot n ≡ or_else (edge_value es nodes slot) (lookup slot m)
  unfolding follow_edges edge_value or_else
  lookup-follow_edges [] nodes m n slot h = ground (arith, h)
  lookup-follow_edges (e ∷ es) nodes m n slot h =
      elim (resolved-cases (follow_edge e (lookup e.from nodes) m)) [
        | inl (m', q) ↦
            lookup-follow_edges es nodes m' n slot (rw (q, follow_edges) at h)
            ∙ ap (or_else (edge_value es nodes slot)) (followed e (lookup e.from nodes) m m' slot q)
            ∙ or_else_assoc (edge_value es nodes slot)
                (if str_eq e.to_port slot
                  then payload_of (lookup e.from nodes) e.from_port
                  else none)
                (lookup slot m)
        | inr (inl (x, q)) ↦ stopped n (λ e. ground (arith, e)) (rw (q, follow_edges) at h)
        | inr (inr (x, q)) ↦ stopped n (λ e. ground (arith, e)) (rw (q, follow_edges) at h)
      ]

  lookup-fill_slot :
      (s slot : String) (d : Option A) (m : Table A)
      → lookup slot (fill_slot s d m) ≡ or_else (lookup slot m) (if str_eq s slot then d else none)
  unfolding fill_slot or_else
  lookup-fill_slot s slot none m = ground arith
  lookup-fill_slot s slot (some v) m = ground (arith, lookup-put s slot v m, eq_iff s slot)

  lookup-fill_slots :
      (ds : List (String × Option A)) (m : Table A) (slot : String)
      → lookup slot (fill_slots ds m) ≡ or_else (lookup slot m) (default_value ds slot)
  unfolding fill_slots default_value or_else
  lookup-fill_slots [] m slot = ground arith
  lookup-fill_slots ((s, d) ∷ ds) m slot =
      lookup-fill_slots ds (fill_slot s d m) slot
      ∙ ap (λ o. or_else o (default_value ds slot)) (lookup-fill_slot s slot d m)
      ∙ sym (
          or_else_assoc (lookup slot m) (if str_eq s slot then d else none) (default_value ds slot))

  three :
      (slot_name : String) (x y z : Option A)
      → or_else (or_else x (or_else y (lookup slot_name []))) z ≡ or_else x (or_else y z)
  unfolding or_else lookup
  three s none none z = refl
  three s none (some y) z = refl
  three s (some x) y z = refl

  resolved-injective : {m n : Table A} → resolved m ≡ resolved n → m ≡ n
  unfolding resolved_of
  resolved-injective {m} e = ap (resolved_of m) e

  filled-resolved :
      (ds : List (String × Option A)) (i : Inputs A) (m : Table A)
      → filled ds i ≡ resolved m
      → (n : Table A) × (i ≡ resolved n) × (fill_slots ds n ≡ m)
  unfolding filled
  filled-resolved ds (resolved n) m h = (n, refl, resolved-injective h)
  filled-resolved ds (skipped x) m h = stopped m (λ e. ground (arith, e)) h
  filled-resolved ds (refused x) m h = stopped m (λ e. ground (arith, e)) h

  -- Where the inputs of a node resolve, each slot has the payload field of the last data edge into
  -- it, else its binding's value, else its template's declared default, and otherwise none.
  pub lookup-resolve_inputs :
      (nodes : Table (Source A)) (bindings : List (String × BindingDesc A)) (params : Table A)
      (edges : List DataEdge) (slots : List (String × Option A)) (m : Table A) (slot : String)
      → resolve_inputs nodes bindings params edges slots ≡ resolved m
      → lookup slot m
        ≡ or_else
            (edge_value edges nodes slot)
            (or_else (binding_value bindings params slot) (default_value slots slot))
  unfolding resolve_inputs or_else
  lookup-resolve_inputs nodes bindings params edges slots m slot h =
      elim (Option-cases (bind_slots bindings params [])) [
        | inl e ↦ stopped m (λ e. ground (arith, e)) (rw (e, resolve_inputs) at h)
        | inr (b, e) ↦
            let (n, q, f) =
              filled-resolved slots (follow_edges edges nodes b) m (rw (e, resolve_inputs) at h) in
            ap (lookup slot) (sym f)
            ∙ lookup-fill_slots slots n slot
            ∙ ap (λ o. or_else o (default_value slots slot))
                (lookup-follow_edges edges nodes b n slot q
                  ∙ ap (or_else (edge_value edges nodes slot))
                      (lookup-bind_slots bindings params [] b slot e))
            ∙ three slot (edge_value edges nodes slot) (binding_value bindings params slot)
                (default_value slots slot)
      ]
