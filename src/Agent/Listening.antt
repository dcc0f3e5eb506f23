-- ===== src/Agent/Listening.antt =====
-- `Listen`, `Close` and the end of `Serve` in internal/app/agent.go. The calls of the system act on
-- a state of any type.
use reptile.Prelude.{
  ◌≡◌, refl, sym, ap, ◌∙◌, ◌⊎◌, inl, inr, Bool, true, false, Option, none, some, List, [], ◌∷◌,
  ◌++◌, if◌then◌else◌, arith,
}
use reptile.Text.Defs.{Text, codes}

-- What `os.Remove` answers, told apart by `os.IsNotExist`.
pub data RemoveError : Type 0 where
  absent : RemoveError
  refused : Text → RemoveError

-- The calls for the path of the socket; `close` closes the listener.
pub record Socket (K : Type 0) : Type 0 where
  pub make_dir : K → Option Text × K
  pub remove : K → Option RemoveError × K
  pub bind : K → Option Text × K
  pub chmod : K → Option Text × K
  pub close : K → Option Text × K

-- The fields of `Server` that `mu` guards: `listening` if `ln` is not nil.
pub record State : Type 0 where
  pub closed : Bool
  pub listening : Bool

pub record Listened (K : Type 0) : Type 0 where
  pub error : Option Text
  pub state : State
  pub kernel : K

pub record Closed (K : Type 0) : Type 0 where
  pub errors : List Text
  pub state : State
  pub kernel : K

-- The error of removing that counts.
unfoldable pub remove_error : Option RemoveError → Option Text
remove_error none = none
remove_error (some absent) = none
remove_error (some (refused e)) = some e

abbrev pub joined : Option Text → List Text → List Text
joined none es = es
joined (some e) es = e ∷ es

-- `Serve` after an error of `Accept`
unfoldable pub serve_end : State → Text → Option Text
serve_end s e = if s.closed then none else some e

module _ {K : Type 0} (socket : Socket K) where
  abbrev pub not_listening : Text → State → K → Listened K
  not_listening e s k = record { error = some e; state = s; kernel = k }

  -- A socket that cannot be secured is closed and removed again.
  unfoldable pub after_chmod : State → Option Text × K → Listened K
  after_chmod s (some e, k) =
      not_listening (codes "secure agent socket: " ++ e) s (socket.remove (socket.close k).1).1
  after_chmod s (none, k) = record {
    error = none;
    state = record { closed = false; listening = true };
    kernel = k;
  }

  unfoldable pub after_bind : State → Option Text × K → Listened K
  after_bind s (some e, k) = not_listening e s k
  after_bind s (none, k) = after_chmod s (socket.chmod k)

  unfoldable pub after_remove : State → Option Text → K → Listened K
  after_remove s (some e) k = not_listening e s k
  after_remove s none k = after_bind s (socket.bind k)

  unfoldable pub after_dir : State → Option Text × K → Listened K
  after_dir s (some e, k) = not_listening e s k
  after_dir s (none, k) = let r = socket.remove k in after_remove s (remove_error r.0) r.1

  -- `Listen`
  unfoldable pub listen : State → K → Listened K
  listen s k = after_dir s (socket.make_dir k)

  -- `Close`
  unfoldable pub close : State → K → Closed K
  close s k =
      let c = if s.listening then socket.close k else (none, k) in
      let r = socket.remove c.1 in
      record {
        errors = joined c.0 (joined (remove_error r.0) []);
        state = record { closed = true; listening = false };
        kernel = r.1;
      }

  -- From `k` to `k'`: the directory was made, what stood at the path was removed, or nothing did; the
  -- socket was bound, and then its mode was set.
  pub record IsSecured (k k' : K) : Type 0 where
    pub with_dir : K
    pub before : K
    pub bound_state : K
    pub made : socket.make_dir k ≡ (none, with_dir)
    pub removed :
        (socket.remove with_dir ≡ (none, before)) ⊎ (socket.remove with_dir ≡ (some absent, before))
    pub bound : socket.bind before ≡ (none, bound_state)
    pub secured : socket.chmod bound_state ≡ (none, k')

  after_chmod-none :
      (s : State) (p : Option Text × K)
      → (after_chmod s p).error ≡ none
      → p ≡ (none, (after_chmod s p).kernel)
  unfolding after_chmod
  after_chmod-none s (some e, k) h = absurd (ground (arith, h))
  after_chmod-none s (none, k) h = refl

  after_bind-none :
      (s : State) (p : Option Text × K)
      → (after_bind s p).error ≡ none
      → (p ≡ (none, p.1)) × (socket.chmod p.1 ≡ (none, (after_bind s p).kernel))
  unfolding after_bind
  after_bind-none s (some e, k) h = absurd (ground (arith, h))
  after_bind-none s (none, k) h = (refl, after_chmod-none s (socket.chmod k) h)

  remove_error-none :
      (p : Option RemoveError × K)
      → remove_error p.0 ≡ none
      → (p ≡ (none, p.1)) ⊎ (p ≡ (some absent, p.1))
  unfolding remove_error
  remove_error-none (none, k) h = inl refl
  remove_error-none (some absent, k) h = inr refl
  remove_error-none (some (refused e), k) h = absurd (ground (arith, h))

  after_remove-none :
      (s : State) (o : Option Text) (k : K)
      → (after_remove s o k).error ≡ none
      → (o ≡ none)
        × ((after_bind s (socket.bind k)).error ≡ none)
        × ((after_remove s o k).kernel ≡ (after_bind s (socket.bind k)).kernel)
  unfolding after_remove
  after_remove-none s (some e) k h = absurd (ground (arith, h))
  after_remove-none s none k h = (refl, h, refl)

  after_dir-none :
      (s : State) (p : Option Text × K)
      → (after_dir s p).error ≡ none
      → (p ≡ (none, p.1))
        × ((after_remove s (remove_error (socket.remove p.1).0) (socket.remove p.1).1).error ≡ none)
        × ((after_dir s p).kernel
            ≡ (after_remove s (remove_error (socket.remove p.1).0) (socket.remove p.1).1).kernel)
  unfolding after_dir
  after_dir-none s (some e, k) h = absurd (ground (arith, h))
  after_dir-none s (none, k) h = (refl, h, refl)

  -- A server that listens has made its directory, removed what stood at its path, bound its socket
  -- and then set the mode that keeps others out.
  pub listen-IsSecured :
      (s : State) (k : K) → (listen s k).error ≡ none → IsSecured k (listen s k).kernel
  unfolding listen
  listen-IsSecured s k h =
      let with_dir = (socket.make_dir k).1 in
      let before = (socket.remove with_dir).1 in
      let (made, h1, to_remove) = after_dir-none s (socket.make_dir k) h in
      let (gone, h2, to_bind) =
        after_remove-none s (remove_error (socket.remove with_dir).0) before h1 in
      let (bound, secured) = after_bind-none s (socket.bind before) h2 in
      record {
        with_dir = with_dir;
        before = before;
        bound_state = (socket.bind before).1;
        made = made;
        removed = remove_error-none (socket.remove with_dir) gone;
        bound = bound;
        secured = secured ∙ ap (λ (x : K). (none, x)) (sym (to_remove ∙ to_bind));
      }

  -- After `Close`, an error of `Accept` ends `Serve` without an error.
  close-serve_end : (s : State) (k : K) (e : Text) → serve_end (close s k).state e ≡ none
  unfolding close serve_end
  close-serve_end s k e = refl
