-- ===== src/Commands/Certs.antt =====
-- `phases restart` of nodelet/pkg/nodelet/cmd/phase_commands.go and the phase that generates the
-- certificates.
use mathlib.Core.Path.{subst}
use mathlib.Core.List.{reverse, append_assoc}
use nodelet.Shared.{
  ℕ, ◌+◌, ◌<◌, ◌≡◌, refl, sym, ap, ◌∙◌, Bool, true, false, not, ◌&&◌, List, [], ◌∷◌, ◌++◌, map,
  length, drop, pos, minus_one, eqb, arith, Bool-cases, inl, inr, if◌then◌else◌,
}
use nodelet.Config.{start_op, gen_certs_phase_order}
use nodelet.Agent.State.{
  Phase, start, stop, call, Setup, Nodelet, emit, with_state, done, Returns, Returns-if,
  Returns-bind,
}
use nodelet.Agent.Chain.{indexed, skips, start_loop, start_phases, stop_loop, stop_phases, stop_end}
use nodelet.Agent.Chain.Started.{
  entered, spoiled, finished, begun, ended, start_loop-nil, start_loop-fail, start_loop-pass,
  start_phases_lem,
}
use nodelet.Agent.Chain.Stopped.{
  stopping, stop_loop-skip, stop_loop-break, stop_loop-next, stop_phases_lem, stop_phases-Stopped,
}
use nodelet.Agent.Chain.Order.{stopped, persist-stopped, stop_end-stopped}
use nodelet.Agent.Reconcile.{skip_gen_certs_phase}
use nodelet.Commands.{
  PhasesOpts, Shell, start_opts, stop_opts, restart_opts, prepared, restart_command, validate,
}
use nodelet.Commands.Guard.{validate-lt, validated-Returns}

-- No phase of the list generates the certificates.
abbrev pub NoCerts : List Phase → Type 0
NoCerts [] = Unit
NoCerts (p ∷ ps) = (eqb p.order gen_certs_phase_order ≡ false) × NoCerts ps

-- The phases stopped from an agent to a later one, none of which generates the certificates.
abbrev pub SparesCerts : Nodelet → Nodelet → Type 0
SparesCerts n m = (new : List Phase) × (stopped m.trace ≡ new ++ stopped n.trace) × NoCerts new

NoCerts-append : (ps qs : List Phase) → NoCerts ps → NoCerts qs → NoCerts (ps ++ qs)
NoCerts-append [] qs h k = k
NoCerts-append (p ∷ ps) qs h k = (h.0, NoCerts-append ps qs h.1 k)

SparesCerts-trans : (a b c : Nodelet) → SparesCerts a b → SparesCerts b c → SparesCerts a c
SparesCerts-trans a b c (ps, e, h) (qs, f, k) = (
  qs ++ ps,
  f ∙ ap (λ l. qs ++ l) e ∙ sym (append_assoc qs ps (stopped a.trace)),
  NoCerts-append qs ps k h,
)

SparesCerts-same : (a b : Nodelet) → stopped b.trace ≡ stopped a.trace → SparesCerts a b
SparesCerts-same a b e = ([], e, tt)

-- What `SkipGenCertsPhase` sets.
pub record Skips (n : Nodelet) : Type 0 where
  pub operation : n.current_state.operation ≡ start_op
  pub check : n.current_state.failed_status_check ≡ minus_one

module _ (s : Setup) where
  skips-Skips :
      (i : ℕ) (p : Phase) (n : Nodelet)
      → Skips n
      → skips s i p n ≡ eqb p.order gen_certs_phase_order
  unfolding skips
  skips-Skips i p n h = rw (h.operation, h.check) (ground arith)

  emit-SparesCerts :
      (p : Phase) (n : Nodelet)
      → eqb p.order gen_certs_phase_order ≡ false
      → SparesCerts n (emit (call stop p) n)
  emit-SparesCerts p n h = (p ∷ [], refl, (h, tt))

  stop_loop-SparesCerts :
      (force : Bool) (ps : List (ℕ × Phase)) (err : Bool) (n : Nodelet)
      → Skips n
      → SparesCerts n (stop_loop s force ps err n).2
  stop_loop-SparesCerts force [] err n h = unfold stop_loop in SparesCerts-same n n refl
  stop_loop-SparesCerts force ((i, p) ∷ rest) err n h =
      elim (Bool-cases (eqb p.order gen_certs_phase_order)) [
        | inl certs ↦
            rw (stop_loop-skip s force i p rest err n (skips-Skips i p n h ∙ certs))
              (SparesCerts-same n n refl)
        | inr other ↦ elim (Bool-cases (s.env.fails n.trace (call stop p) && not force)) [
          | inl f ↦
              rw (stop_loop-break s force i p rest err n (skips-Skips i p n h ∙ other) f)
                (emit-SparesCerts p n other)
          | inr f ↦ rw (stop_loop-next s force i p rest err n (skips-Skips i p n h ∙ other) f) (
              SparesCerts-trans n (emit (call stop p) n)
                (stop_loop s force rest (s.env.fails n.trace (call stop p))
                  (emit (call stop p) n)).2
                (emit-SparesCerts p n other)
                (stop_loop-SparesCerts force rest (s.env.fails n.trace (call stop p))
                  (emit (call stop p) n) (record { operation = h.operation; check = h.check })))
        ]
      ]

  stop_phases-SparesCerts :
      (k : ℕ) (force : Bool) (n : Nodelet)
      → k < length s.phases
      → n.current_state.all_phases ≡ map (λ p. p.name) s.phases
      → Skips n
      → Returns (λ r. SparesCerts n r.1) (stop_phases s (pos k) force n)
  unfolding stopping
  stop_phases-SparesCerts k force n lt names h =
      let r = stop_loop s force (reverse (indexed k (drop k s.phases))) false n in
      let loop = stop_loop-SparesCerts force (reverse (indexed k (drop k s.phases))) false n h in
      rw (stop_phases_lem s k force n lt names) (
        Returns-if (λ r. SparesCerts n r.1) r.0 (done (false, r.2)) (done (r.1, stop_end s k r.2))
          (λ _. loop)
          (λ _.
            SparesCerts-trans n r.2 (stop_end s k r.2) loop
              (SparesCerts-same r.2 (stop_end s k r.2) (stop_end-stopped s k r.2))))

  entered-stopped : (p : Phase) (n : Nodelet) → stopped (entered s p n).trace ≡ stopped n.trace
  unfolding entered
  entered-stopped p n = persist-stopped s (with_state (λ d. record d { current_phase = p.name }) n)

  spoiled-stopped : (p : Phase) (n : Nodelet) → stopped (spoiled s p n).trace ≡ stopped n.trace
  unfolding spoiled
  spoiled-stopped p n = persist-stopped s _ ∙ entered-stopped p n

  finished-stopped : (p : Phase) (n : Nodelet) → stopped (finished s p n).trace ≡ stopped n.trace
  unfolding finished
  finished-stopped p n = persist-stopped s _ ∙ entered-stopped p n

  -- `Start` stops nothing.
  start_loop-stopped :
      (ps : List Phase) (i : ℕ) (n : Nodelet)
      → stopped (start_loop s ps i n).2.trace ≡ stopped n.trace
  start_loop-stopped [] i n = rw start_loop-nil
  start_loop-stopped (p ∷ ps) i n =
      elim (Bool-cases (s.env.fails (entered s p n).trace (call start p))) [
        | inl bad ↦ rw (start_loop-fail s p ps i n bad) (spoiled-stopped p n)
        | inr good ↦
            rw (start_loop-pass s p ps i n good)
              (start_loop-stopped ps (i + 1) (finished s p n) ∙ finished-stopped p n)
      ]

  start_phases-stopped :
      (k : ℕ) (n : Nodelet)
      → k < length s.phases
      → n.current_state.all_phases ≡ map (λ p. p.name) s.phases
      → Returns (λ r. SparesCerts n r.2) (start_phases s (pos k) n)
  unfolding ended begun
  start_phases-stopped k n lt names =
      let r = start_loop s (drop k s.phases) k (begun s k n) in
      rw (start_phases_lem s k n lt names) (
        SparesCerts-same n (ended s r.2) (
          persist-stopped s (with_state (λ d. record d { current_phase = "" }) r.2)
          ∙ start_loop-stopped (drop k s.phases) k (begun s k n)))

  restart_opts-SparesCerts :
      (o : PhasesOpts) (k : ℕ) (n : Nodelet)
      → o.single ≡ false
      → k < length s.phases
      → n.current_state.all_phases ≡ map (λ p. p.name) s.phases
      → Skips n
      → Returns (λ r. SparesCerts n r.1) (restart_opts s o (pos k) n)
  unfolding restart_opts stop_opts start_opts
  restart_opts-SparesCerts o k n whole lt names h =
      let (r, e, same) = stop_phases-Stopped s k o.force n lt names in
      let spared =
        subst (Returns (λ r. SparesCerts n r.1)) e
          (stop_phases-SparesCerts k o.force n lt names h) in
      rw (whole, e)
        (Returns-bind (λ q. SparesCerts r.1 q.2) (λ q. SparesCerts n q.1)
          (start_phases s (pos k) r.1) _ (start_phases-stopped k r.1 lt (same.all_phases ∙ names))
          (λ q also. SparesCerts-trans n r.1 q.2 spared also))

prepared-skips :
    (o : PhasesOpts) (s : Setup) (n : Nodelet)
    → o.regen_certs ≡ false
    → prepared o s n ≡ skip_gen_certs_phase s n
unfolding prepared
prepared-skips o s n keep = ap (λ b. if b then n else skip_gen_certs_phase s n) keep

-- For an agent with some phase, whose list of phase names is that of its setup, `phases restart`
-- without `--regen-certs` and without `--single` returns, and no phase that it stopped is the one
-- that generates the certificates.
pub restart_command-SparesCerts :
    (sh : Shell) (o : PhasesOpts) (s : Setup) (n : Nodelet)
    → 0 < length s.phases
    → n.current_state.all_phases ≡ map (λ p. p.name) s.phases
    → o.single ≡ false
    → o.regen_certs ≡ false
    → Returns (λ r. SparesCerts n r.1) (restart_command sh o s n)
unfolding restart_command skip_gen_certs_phase
restart_command-SparesCerts sh o s n some_phase names whole keep = rw (prepared-skips o s n keep) (
    validated-Returns (λ r. SparesCerts n r.1) (validate sh true o s) _ (skip_gen_certs_phase s n)
      (SparesCerts-same n (skip_gen_certs_phase s n) refl)
      λ i e.
        let (j, same, lt) = validate-lt sh true o s i some_phase e in
        rw same (
          restart_opts-SparesCerts s o j (skip_gen_certs_phase s n) whole lt names
            (record { operation = refl; check = refl })))
