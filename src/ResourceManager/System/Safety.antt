-- ===== src/ResourceManager/System/Safety.antt =====
-- What holds of the resource manager in every state that its threads can reach together:
-- server/resource_manager/manager.cpp.
use r_faa_s.Common.{ℕ, ◌≡◌, refl, sym, ap, subst, ◌∙◌, none, some, [], nat_eq, find, some_inj}
use r_faa_s.Rdmalib.Queue.{Verbs}
use r_faa_s.Rdmalib.Listener.{ConnectionManager}
use r_faa_s.ResourceManager.Executors.{Executors, empty}
use r_faa_s.ResourceManager.Executors.Laws.{IsValid}
use r_faa_s.ResourceManager.Executors.Conns.{Knows}
use r_faa_s.ResourceManager.Db.Conns.{add-Keeps}
use r_faa_s.ResourceManager.Manager.Conns.{handle_message-Keeps, handle_client_message-Keeps}
use r_faa_s.ResourceManager.System.{
  System, Event, listens, takes_executor, takes_client, polls_sends, executor_message,
  client_message, adds, writes_executor, writes_client, Reach, here, next, step,
}
use r_faa_s.ResourceManager.System.Admitting.{Admitted}
use r_faa_s.ResourceManager.System.Shrinks.{
  executor_writes-Shrinks, client_writes-Shrinks, poll_sends-Shrinks,
}
use r_faa_s.ResourceManager.System.Sound.{
  Queued, Sound, manager-Sound, with_manager-Sound, take_executor_entry-Sound,
  take_client_entry-Sound,
}
use r_faa_s.ResourceManager.System.Listening.{listen-Sound}

unknown_yet : (qp : ℕ) {ex : Executors} → Knows qp ex → ¬ (ex ≡ empty)
unfolding empty find
unknown_yet qp k e =
    let h : none ≡ some k.0 = sym (ap (λ x. find qp x.by_conn) e) ∙ k.1 in absurd (cc)

module _ (v : Verbs) (cm : ConnectionManager) (fresh : v.Device) (recv_buf : ℕ) where
  abbrev S : Type 0
  S = System v cm fresh recv_buf

  step-Sound :
      {mine : ℕ} (ev : Event v cm fresh recv_buf) (s : S) {t : S}
      → Sound v cm fresh recv_buf mine s
      → step v cm fresh recv_buf ev s ≡ some t
      → Sound v cm fresh recv_buf mine t
  unfolding step
  step-Sound {mine} (listens ev) s h done = listen-Sound v cm fresh recv_buf ev s h done
  step-Sound {mine} takes_executor s h done =
      subst (Sound v cm fresh recv_buf mine) (some_inj done)
        (take_executor_entry-Sound v cm fresh recv_buf s.executor_queue s refl h)
  step-Sound {mine} takes_client s h done =
      subst (Sound v cm fresh recv_buf mine) (some_inj done)
        (take_client_entry-Sound v cm fresh recv_buf s.client_queue s refl h)
  step-Sound {mine} polls_sends s {t} h done =
      with_manager-Sound v cm fresh recv_buf s t _ h
        (λ m e. poll_sends-Shrinks v cm fresh recv_buf s.manager m e) done
  step-Sound {mine} (executor_message wc) s {t} h done =
      with_manager-Sound v cm fresh recv_buf s t _ h
        (λ m e. (handle_message-Keeps v wc s.manager e).shrinks) done
  step-Sound {mine} (client_message dangling wc) s {t} h done =
      with_manager-Sound v cm fresh recv_buf s t _ h
        (λ m e. (handle_client_message-Keeps v dangling wc s.manager e).shrinks) done
  step-Sound {mine} (adds name ip port cores memory) s {t} h done =
      subst (Sound v cm fresh recv_buf mine) (some_inj done) (
        manager-Sound v cm fresh recv_buf s _ h
          (add-Keeps name ip port cores memory s.manager.db).shrinks)
  step-Sound {mine} (writes_executor qp slot msg) s {t} h done =
      subst (Sound v cm fresh recv_buf mine) (some_inj done) (
        manager-Sound v cm fresh recv_buf s _ h
          (executor_writes-Shrinks v cm fresh recv_buf qp slot msg s.manager))
  step-Sound {mine} (writes_client qp slot rq) s {t} h done =
      subst (Sound v cm fresh recv_buf mine) (some_inj done) (
        manager-Sound v cm fresh recv_buf s _ h
          (client_writes-Shrinks v cm fresh recv_buf qp slot rq s.manager))

  pub Reach-Sound :
      {mine : ℕ} {s t : S}
      → Sound v cm fresh recv_buf mine s
      → Reach v cm fresh recv_buf s t
      → Sound v cm fresh recv_buf mine t
  Reach-Sound {mine} h here = h
  Reach-Sound {mine} h (next {t} ev r done) = step-Sound ev t (Reach-Sound h r) done

  start-Sound :
      (s : S)
      → s.manager.db.executors ≡ empty
      → s.executor_queue ≡ []
      → Sound v cm fresh recv_buf s.secret s
  unfolding empty
  start-Sound s none_yet nothing = record {
    same = refl;
    valid = rw none_yet (record { names = tt; conns = tt });
    known = λ qp k. absurd (unknown_yet qp k none_yet);
    queued = λ qp k. elim (subst (Queued v cm fresh recv_buf qp) nothing k) [ ];
  }

  -- However the threads of a resource manager that starts with an empty registry interleave, and
  -- whatever messages and connection requests come in: the references of the registry stay inside its
  -- store, and every queue pair under which it knows an executor is that of a connection whose request
  -- carried the key of the executors and the manager's secret.
  pub Reach-Admitted :
      (s t : S) (qp : ℕ)
      → s.manager.db.executors ≡ empty
      → s.executor_queue ≡ []
      → Reach v cm fresh recv_buf s t
      → Knows qp t.manager.db.executors
      → IsValid t.manager.db.executors × Admitted t.passive.connections s.secret qp
  Reach-Admitted s t qp none_yet nothing r k =
      let sound = Reach-Sound (start-Sound s none_yet nothing) r in (sound.valid, sound.known qp k)
