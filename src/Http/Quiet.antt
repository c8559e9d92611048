-- ===== src/Http/Quiet.antt =====
-- What requests of operators may change.
use draft.Base.{
  ◌≡◌, ◌≢◌, refl, sym, subst, ◌⊎◌, inl, inr, Bool, true, false, not, Option, none, some, [], ◌∷◌,
  ◌++◌, Str, codes, if◌then◌else◌, arith,
}
use draft.Log.{◌>>=◌}
use draft.Log.Room.{RcErrno, is_good}
use draft.Http.{
  Handler, handle_show_states, handle_show_servers, handle_append_entry, handle_add_server,
  handle_del_server, handle_leadership_transfer, dispatch, parameter, appended_text, host_of,
}
use draft.Http.Serve.{
  Method, confirm, Op, add, del, transfer, append, expr_of, Outside, replied, append_content,
  perform, with_parameter, confirmed, handle_request, run_handler, serve,
}
use draft.Raft.Types.{Raft, is_leader}
use draft.Raft.Member.{append_entry, Request}
use draft.Raft.Member.Votes.{KeepsIn, append_entry-vote}
use draft.Raft.Member.Requests.{
  after_request, add_server-Leads, del_server-Leads, leadership_transfer-Leads,
}
use draft.Raft.Rpc.Advance.{Leads}
use draft.Raft.Rpc.Changes.{Calm, Calm-refl}

-- The state behind the request is calm.
abbrev pub Serves : Raft → Option (Raft × Str) → Type 0
Serves r none = Unit
Serves r (some x) = Calm r x.0

replied-Serves : (r : Raft) (o : Request) → Leads after_request r o → Serves r (replied o)
replied-Serves r none h = tt
replied-Serves r (some (r', rc, text)) h = h

append_content-Serves :
    (out : Outside) (target : Str) (r : Raft) → Serves r (append_content out target r)
unfolding append_content
append_content-Serves out target r =
    at (append_entry out.os (appended_text target) false r)
      (append_entry-vote out.os (appended_text target) false r)
  where
    at :
        (o : Option (Raft × RcErrno))
        → KeepsIn r o
        → Serves r (do
          (r', rc) ← o
          some (
            r',
            (if is_good rc then codes "OK " else codes "ERROR ")
                ++ host_of r.leader_id
                ++ codes ":"
                ++ out.http_port,
          ))
    at none h = tt
    at (some x) h = inr (h.0, inr h.1, inr (h.2, h.3), inr h.4)

perform-Serves :
    (out : Outside) (op : Op) (target value : Str) (r : Raft)
    → Serves r (perform out op target value r)
unfolding perform
perform-Serves out add target value r =
    replied-Serves r _ (add_server-Leads out.exists out.checks_ip value r)
perform-Serves out del target value r = replied-Serves r _ (del_server-Leads out.os value r)
perform-Serves out transfer target value r = replied-Serves r _ (leadership_transfer-Leads value r)
perform-Serves out append target value r = append_content-Serves out target r

-- The server is as it was; or it leads, the request is confirmed and names the parameter of an operation,
-- and the server is calm.
abbrev pub Guarded : Method → Str → Raft → Option (Raft × Str) → Type 0
Guarded method target r none = Unit
Guarded method target r (some x) =
    (x.0 ≡ r)
    ⊎ ((is_leader r.role ≡ true)
        × (confirm method target ≡ none)
        × ((op : Op) × (parameter target (expr_of op) ≢ []))
        × Calm r x.0)

Guarded-Serves :
    (method : Method) (target : Str) (op : Op) (value : Str) (r : Raft) (o : Option (Raft × Str))
    → is_leader r.role ≡ true
    → confirm method target ≡ none
    → parameter target (expr_of op) ≡ value
    → value ≢ []
    → Serves r o
    → Guarded method target r o
Guarded-Serves method target op value r none l c p ne s = tt
Guarded-Serves method target op value r (some x) l c p ne s =
    inr (l, c, (op, subst (λ v. v ≢ []) (sym p) ne), s)

with_parameter-Guarded :
    (out : Outside) (op : Op) (method : Method) (target value : Str) (r : Raft)
    → is_leader r.role ≡ true
    → confirm method target ≡ none
    → parameter target (expr_of op) ≡ value
    → Guarded method target r (with_parameter out op target value r)
with_parameter-Guarded out op method target [] r l c p = inl refl
with_parameter-Guarded out op method target (b ∷ s) r l c p =
    Guarded-Serves method target op (b ∷ s) r (perform out op target (b ∷ s) r) l c p (λ e. cc)
      (perform-Serves out op target (b ∷ s) r)

Guarded-if :
    (method : Method) (target : Str) (r : Raft) (b : Bool) (m n : Option (Raft × Str))
    → (b ≡ true → Guarded method target r m)
    → (b ≡ false → Guarded method target r n)
    → Guarded method target r (if b then m else n)
Guarded-if method target r true m n hm hn = hm refl
Guarded-if method target r false m n hm hn = hn refl

confirmed-Guarded :
    (out : Outside) (op : Op) (method : Method) (target : Str) (r : Raft) (o : Option Str)
    → confirm method target ≡ o
    → Guarded method target r (confirmed out op o target r)
confirmed-Guarded out op method target r (some why) c = inl refl
confirmed-Guarded out op method target r none c =
    Guarded-if method target r (not (is_leader r.role)) _ _ (λ other. inl refl)
      λ leads.
        with_parameter-Guarded out op method target (parameter target (expr_of op)) r (ground arith)
          c refl

handle_request-Guarded :
    (out : Outside) (op : Op) (method : Method) (target : Str) (r : Raft)
    → Guarded method target r (handle_request out op method target r)
unfolding handle_request
handle_request-Guarded out op method target r =
    confirmed-Guarded out op method target r (confirm method target) refl

run_handler-Guarded :
    (out : Outside) (h : Option Handler) (method : Method) (target : Str) (r : Raft)
    → Guarded method target r (run_handler out h method target r)
run_handler-Guarded out none method target r = inl refl
run_handler-Guarded out (some handle_show_states) method target r = inl refl
run_handler-Guarded out (some handle_show_servers) method target r = inl refl
run_handler-Guarded out (some handle_append_entry) method target r =
    handle_request-Guarded out append method target r
run_handler-Guarded out (some handle_add_server) method target r =
    handle_request-Guarded out add method target r
run_handler-Guarded out (some handle_del_server) method target r =
    handle_request-Guarded out del method target r
run_handler-Guarded out (some handle_leadership_transfer) method target r =
    handle_request-Guarded out transfer method target r

-- Whatever request an operator sends, the server behind it, where the request ends, is as it was; or the
-- server led, the method was GET or HEAD, the target was legal and gave a parameter of an operation, and
-- the server follows now in a higher term, or has kept its term and a vote that was given, and then it
-- follows or has its role and its counted votes, and it follows or its log only grew.
pub serve-Guarded :
    (out : Outside) (method : Method) (target : Str) (r : Raft)
    → Guarded method target r (serve out method target r)
unfolding serve
serve-Guarded out method target r = run_handler-Guarded out (dispatch target) method target r

Guarded-Calm :
    (method : Method) (target : Str) (r : Raft) (x : Raft × Str)
    → Guarded method target r (some x)
    → Calm r x.0
Guarded-Calm method target r x (inl e) = subst (Calm r) (sym e) (Calm-refl r)
Guarded-Calm method target r x (inr (_, _, _, c)) = c

pub serve-Calm :
    (out : Outside) (method : Method) (target : Str) (r : Raft) (x : Raft × Str)
    → serve out method target r ≡ some x
    → Calm r x.0
serve-Calm out method target r x e =
    Guarded-Calm method target r x
      (subst (Guarded method target r) e (serve-Guarded out method target r))
