-- ===== src/Pipeline/Runs/Billed.antt =====
-- The tokens of a run's report are those of the replies to its requests.
use mathlib.Core.Path.{subst}
use prompt_patrol.Common.{
  ℕ, suc, ◌+◌, true, false, not, Option, none, some, List, [], ◌∷◌, Text, select, take, leb, ◌≡◌,
  refl, inl, inr, arith, Bool-cases,
}
use prompt_patrol.Pipeline.Split.{is_in}
use prompt_patrol.Pipeline.Runs.{
  GenerationResult, RunState, skipped, with_result, with_reply, run_calls, fresh_run,
}

-- The tokens of one reply; an exception has none.
abbrev pub tokens : (GenerationResult → ℕ) → Option GenerationResult → ℕ
tokens f none = 0
tokens f (some r) = f r

module _ {C : Type 0} (client : ℕ → C → Option GenerationResult) where
  -- The tokens of the replies to a list of requests, the first of them after `n` others.
  abbrev pub tokens_from : (GenerationResult → ℕ) → ℕ → List C → ℕ
  tokens_from f n [] = 0
  tokens_from f n (c ∷ cs) = tokens f (client n c) + tokens_from f (n + 1) cs

module _ {C : Type 0} (id_of : C → Text) (client : ℕ → C → Option GenerationResult)
    (existing : List Text) where
  abbrev pub new_calls : List C → List C
  new_calls cs = select (λ c. not (is_in (id_of c) existing)) cs

  -- What a run is billed for.
  pub record IsBilled (cs : List C) (s : RunState C) : Type 0 where
    pub prompts :
        s.prompt_tokens
        ≡ tokens_from client (λ r. r.prompt_tokens) 0 (take s.requested (new_calls cs))
    pub completions :
        s.completion_tokens
        ≡ tokens_from client (λ r. r.completion_tokens) 0 (take s.requested (new_calls cs))

  -- One reply: a request more, and its tokens.
  record Replied (o : Option GenerationResult) (s t : RunState C) : Type 0 where
    requests : t.requested ≡ s.requested + 1
    prompts : t.prompt_tokens ≡ s.prompt_tokens + tokens (λ r. r.prompt_tokens) o
    completions : t.completion_tokens ≡ s.completion_tokens + tokens (λ r. r.completion_tokens) o

  with_result-Replied :
      (c : C) (r : GenerationResult) (a : Text) (s : RunState C)
      → Replied (some r) s (with_result c r a s)
  with_result-Replied c r [] s = record { requests = refl; prompts = refl; completions = refl }
  with_result-Replied c r (_ ∷ _) s = record { requests = refl; prompts = refl; completions = refl }

  with_reply-Replied :
      (c : C) (o : Option GenerationResult) (s : RunState C) → Replied o s (with_reply c o s)
  with_reply-Replied c none s = record {
    requests = refl;
    prompts = omega arith;
    completions = omega arith;
  }
  with_reply-Replied c (some r) s = with_result-Replied c r r.answer s

  -- What the calls left to make come to, from a state on.
  record Bills (s : RunState C) (cs : List C) (t : RunState C) : Type 0 where
    more : ℕ
    requests : t.requested ≡ s.requested + more
    prompts :
        t.prompt_tokens
        ≡ s.prompt_tokens
          + tokens_from client (λ r. r.prompt_tokens) s.requested (take more (new_calls cs))
    completions :
        t.completion_tokens
        ≡ s.completion_tokens
          + tokens_from client (λ r. r.completion_tokens) s.requested (take more (new_calls cs))

  no-Bills : (s : RunState C) (cs : List C) → Bills s cs s
  no-Bills s cs = record {
    more = 0;
    requests = omega arith;
    prompts = omega arith;
    completions = omega arith;
  }

  skipped-Bills :
      (s t : RunState C) (c : C) (cs : List C)
      → is_in (id_of c) existing ≡ true
      → Bills (skipped s) cs t
      → Bills s (c ∷ cs) t
  unfolding select
  skipped-Bills s t c cs old b = record {
    more = b.more;
    requests = b.requests;
    prompts = rw old b.prompts;
    completions = rw old b.completions;
  }

  asked-Bills :
      (s a t : RunState C) (c : C) (cs : List C)
      → is_in (id_of c) existing ≡ false
      → Replied (client s.requested c) s a
      → Bills a cs t
      → Bills s (c ∷ cs) t
  unfolding select
  asked-Bills s a t c cs new r b = record {
    more = suc b.more;
    requests = omega (arith, r.requests, b.requests);
    prompts = rw new (
        let k =
          subst
            (λ n.
              t.prompt_tokens
              ≡ a.prompt_tokens
                + tokens_from client (λ r. r.prompt_tokens) n (take b.more (new_calls cs)))
            r.requests b.prompts in
        omega (arith, k, r.prompts));
    completions = rw new (
        let k =
          subst
            (λ n.
              t.completion_tokens
              ≡ a.completion_tokens
                + tokens_from client (λ r. r.completion_tokens) n (take b.more (new_calls cs)))
            r.requests b.completions in
        omega (arith, k, r.completions));
  }

  run_calls-Bills :
      (cs : List C) (s : RunState C) → Bills s cs (run_calls id_of client existing cs s)
  unfolding run_calls
  run_calls-Bills [] s = no-Bills s []
  run_calls-Bills (c ∷ cs) s =
      let asked : RunState C = with_reply c (client s.requested c) s in
      elim (Bool-cases (is_in (id_of c) existing)) [
        | inl old ↦ rw old (skipped-Bills s _ c cs old (run_calls-Bills cs (skipped s)))
        | inr new ↦ elim (Bool-cases (leb 3 asked.streak)) [
          | inl over ↦
              rw (new, over)
                (asked-Bills s asked asked c cs new (with_reply-Replied c (client s.requested c) s)
                  (no-Bills asked cs))
          | inr on ↦
              rw (new, on)
                (asked-Bills s asked _ c cs new (with_reply-Replied c (client s.requested c) s)
                  (run_calls-Bills cs asked))
        ]
      ]

  pub fresh_run-IsBilled :
      (cs : List C) → IsBilled cs (run_calls id_of client existing cs fresh_run)
  fresh_run-IsBilled cs =
      let b = run_calls-Bills cs fresh_run in
      let all : b.more ≡ (run_calls id_of client existing cs fresh_run).requested =
        omega (arith, b.requests) in
      record {
        prompts =
            subst
              (λ n.
                (run_calls id_of client existing cs fresh_run).prompt_tokens
                ≡ tokens_from client (λ r. r.prompt_tokens) 0 (take n (new_calls cs)))
              all (omega (arith, b.prompts));
        completions =
            subst
              (λ n.
                (run_calls id_of client existing cs fresh_run).completion_tokens
                ≡ tokens_from client (λ r. r.completion_tokens) 0 (take n (new_calls cs)))
              all (omega (arith, b.completions));
      }
