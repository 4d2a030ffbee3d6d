-- ===== src/Events/Deferred.antt =====
-- Listeners that are put off onto the queue.
use public_cpp_laravel.Prelude.{
  ◌≡◌, refl, ap, sym, ◌∙◌, Bool, true, false, List, [], ◌∷◌, ◌++◌, append_assoc, append-nil, Text,
  lookup, lookup-insert, text_key, text_eq, text_eq_iff,
}
use public_cpp_laravel.Queue.{Job, array_push, then_do, run_jobs, work}
use public_cpp_laravel.Events.{
  Listener, Listeners, World, or_no_listeners, add_listener, listen, listen_queued, call, then_call,
  call_all, dispatch,
}

-- What a run of the jobs gives, with the queue beside it.
abbrev beside : {S : Type 0} → List (Job S) → Bool × S → Bool × World S
beside jobs (b, s) = (b, (s, jobs))

then_call-beside :
    {S : Type 0} (jobs : List (Job S)) (rest : World S → Bool × World S) (rest' : S → Bool × S)
    (o : Bool × S)
    → ((t : S) → rest (t, jobs) ≡ beside jobs (rest' t))
    → then_call rest (beside jobs o) ≡ beside jobs (then_do rest' o)
then_call-beside jobs rest rest' (false, t) h = refl
then_call-beside jobs rest rest' (true, t) h = h t

module _ {S E : Type 0} where
  abbrev pub listen_all : Text → List (E → Job S) → Listeners S E → Listeners S E
  listen_all t [] ls = ls
  listen_all t (h ∷ hs) ls = listen_all t hs (listen t h ls)

  abbrev pub listen_queued_all : Text → List (E → Job S) → Listeners S E → Listeners S E
  listen_queued_all t [] ls = ls
  listen_queued_all t (h ∷ hs) ls = listen_queued_all t hs (listen_queued t h ls)

  abbrev as_inline : List (E → Job S) → List (Listener S E)
  as_inline [] = []
  as_inline (h ∷ hs) = Listener.inline h ∷ as_inline hs

  abbrev as_queued : List (E → Job S) → List (Listener S E)
  as_queued [] = []
  as_queued (h ∷ hs) = Listener.queued h ∷ as_queued hs

  abbrev pub jobs_of : E → List (E → Job S) → List (Job S)
  jobs_of e [] = []
  jobs_of e (h ∷ hs) = h e ∷ jobs_of e hs

  abbrev at_type : Text → Listeners S E → List (Listener S E)
  at_type t ls = or_no_listeners (lookup t ls)

  at_type-add_listener :
      (t : Text) (l : Listener S E) (ls : Listeners S E)
      → at_type t (add_listener t l ls) ≡ at_type t ls ++ (l ∷ [])
  unfolding add_listener
  at_type-add_listener t l ls =
      let same : text_eq t t ≡ true = (text_eq_iff t t).1 refl in
      ap or_no_listeners (lookup-insert t t (at_type t ls ++ (l ∷ [])) ls) ∙ rw same refl

  at_type-listen_all :
      (t : Text) (hs : List (E → Job S)) (ls : Listeners S E)
      → at_type t (listen_all t hs ls) ≡ at_type t ls ++ as_inline hs
  unfolding listen
  at_type-listen_all t [] ls = sym (append-nil (at_type t ls))
  at_type-listen_all t (h ∷ hs) ls =
      at_type-listen_all t hs (listen t h ls)
      ∙ ap (λ old. old ++ as_inline hs) (at_type-add_listener t (Listener.inline h) ls)
      ∙ append_assoc (at_type t ls) (Listener.inline h ∷ []) (as_inline hs)

  at_type-listen_queued_all :
      (t : Text) (hs : List (E → Job S)) (ls : Listeners S E)
      → at_type t (listen_queued_all t hs ls) ≡ at_type t ls ++ as_queued hs
  unfolding listen_queued
  at_type-listen_queued_all t [] ls = sym (append-nil (at_type t ls))
  at_type-listen_queued_all t (h ∷ hs) ls =
      at_type-listen_queued_all t hs (listen_queued t h ls)
      ∙ ap (λ old. old ++ as_queued hs) (at_type-add_listener t (Listener.queued h) ls)
      ∙ append_assoc (at_type t ls) (Listener.queued h ∷ []) (as_queued hs)

  call_all-as_queued :
      (hs : List (E → Job S)) (e : E) (s : S) (jobs : List (Job S))
      → call_all (as_queued hs) e (s, jobs) ≡ (true, (s, jobs ++ jobs_of e hs))
  unfolding call_all call array_push
  call_all-as_queued [] e s jobs = ap (λ js. (true, (s, js))) (sym (append-nil jobs))
  call_all-as_queued (h ∷ hs) e s jobs =
      call_all-as_queued hs e s (jobs ++ (h e ∷ []))
      ∙ ap (λ js. (true, (s, js))) (append_assoc jobs (h e ∷ []) (jobs_of e hs))

  call_all-as_inline :
      (hs : List (E → Job S)) (e : E) (s : S) (jobs : List (Job S))
      → call_all (as_inline hs) e (s, jobs) ≡ beside jobs (run_jobs (jobs_of e hs) s)
  unfolding call_all call run_jobs
  call_all-as_inline [] e s jobs = refl
  call_all-as_inline (h ∷ hs) e s jobs =
      then_call-beside jobs (call_all (as_inline hs) e) (run_jobs (jobs_of e hs)) (h e s)
        (λ t. call_all-as_inline hs e t jobs)

  -- On a dispatcher with no other listeners and an empty queue, for handlers that return or throw and act
  -- on the application's state alone, neither the dispatcher nor the queue being part of it: where all
  -- are put off, the dispatch returns, leaves that state alone and queues a job for each; the queue's
  -- `work` then comes to the result and the state of a dispatch that calls the same handlers at once,
  -- an exception and its place included.
  pub dispatch-listen_queued_all :
      (t : Text) (hs : List (E → Job S)) (e : E) (s : S)
      → (dispatch t e (listen_queued_all t hs []) (s, []) ≡ (true, (s, jobs_of e hs)))
        × ((work (jobs_of e hs) s).0 ≡ (dispatch t e (listen_all t hs []) (s, [])).0)
        × ((work (jobs_of e hs) s).1 ≡ (dispatch t e (listen_all t hs []) (s, [])).1.0)
  unfolding dispatch lookup work
  dispatch-listen_queued_all t hs e s =
      let inline_run : call_all (at_type t (listen_all t hs [])) e (s, [])
          ≡ beside [] (run_jobs (jobs_of e hs) s) =
        ap (λ ls. call_all ls e (s, [])) (at_type-listen_all t hs [])
        ∙ call_all-as_inline hs e s [] in
      (
        ap (λ ls. call_all ls e (s, [])) (at_type-listen_queued_all t hs [])
            ∙ call_all-as_queued hs e s [],
        ap (λ o. o.0) (sym inline_run),
        ap (λ o. o.1.0) (sym inline_run),
      )
