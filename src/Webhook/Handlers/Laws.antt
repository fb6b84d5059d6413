-- ===== src/Webhook/Handlers/Laws.antt =====
-- internal/webhook/handler.go: which ingestion each event leads to.
use toposcope.Base.{
  Str, true, List, [], ◌∷◌, ◌++◌, Option, none, some, ◌≡◌, ◌≢◌, refl, sym, ◌∙◌, subst, ◌⊎◌, inl,
  inr, ◌↔◌, arith, codes, str_eq, str_eq_iff, Bool-cases, Option-cases,
}
use toposcope.Base.Int.{ℤ}
use toposcope.Ingestion.{IngestionRequest}
use toposcope.Webhook.{PullRequestEvent, PushEvent}
use toposcope.Webhook.Handlers.{
  Services, Tenant, Repository, HandleError, error_of, enqueue, is_handled, handle_pull_request,
  handle_push, pull_request_of, push_of,
}

-- The actions after which a pull request has new commits.
abbrev pub HasNewCommits : Str → Type 0
HasNewCommits action =
    (action ≡ codes "opened") ⊎ (action ≡ codes "synchronize") ⊎ (action ≡ codes "reopened")

is_handled_iff : (action : Str) → (is_handled action ≡ true) ↔ HasNewCommits action
unfolding is_handled
is_handled_iff action = ground (
  arith,
  str_eq_iff action (codes "opened"),
  str_eq_iff action (codes "synchronize"),
  str_eq_iff action (codes "reopened"),
)

module _ {D : Type 0} (svc : Services D) where
  -- What a handler that creates an ingestion for a tenant and a repository gives.
  abbrev pub created : IngestionRequest → D → Option HandleError × D
  created request d =
      let (i, d') = svc.create_ingestion request d in
      (error_of HandleError.create_ingestion_failed i, d')

  -- The outcome is that of one new ingestion, for a tenant and a repository that the services know.
  abbrev pub Creates :
      ℤ → Str → (Tenant → Repository → IngestionRequest) → D → Option HandleError × D → Type 0
  Creates inst name request d out =
      (t : Tenant) × (svc.get_tenant_by_installation inst d ≡ some t)
      × ((r : Repository) × (svc.get_repository t.id name d ≡ some r)
          × (out ≡ created (request t r) d))

  enqueue-created :
      (inst : ℤ) (name : Str) (request : Tenant → Repository → IngestionRequest) (d : D)
      (t : Tenant) (r : Repository)
      → svc.get_tenant_by_installation inst d ≡ some t
      → svc.get_repository t.id name d ≡ some r
      → enqueue svc inst name request d ≡ created (request t r) d
  unfolding enqueue
  enqueue-created inst name request d t r p q = rw (enqueue, p, enqueue, q)

  enqueue-Creates :
      (inst : ℤ) (name : Str) (request : Tenant → Repository → IngestionRequest) (d : D)
      → ((enqueue svc inst name request d).1 ≡ d)
        ⊎ Creates inst name request d (enqueue svc inst name request d)
  unfolding enqueue
  enqueue-Creates inst name request d =
      elim (Option-cases (svc.get_tenant_by_installation inst d)) [
        | inl p ↦ inl (rw (p, enqueue))
        | inr (t, p) ↦ elim (Option-cases (svc.get_repository t.id name d)) [
          | inl q ↦ inl (rw (p, enqueue, q))
          | inr (r, q) ↦ inr (t, p, (r, q, enqueue-created inst name request d t r p q))
        ]
      ]

  -- A push to another branch than the default one does nothing. A push to the default branch, where
  -- the tenant and the repository are known, creates one ingestion of the pushed commit, which
  -- belongs to no pull request. In no other case is the state changed.
  pub handle_push_lem :
      (e : PushEvent) (d : D)
      → ((¬ (e.ref ≡ codes "refs/heads/" ++ e.repository.default_branch))
          → handle_push svc e d ≡ (none, d))
        × ((t : Tenant) (r : Repository)
            → e.ref ≡ codes "refs/heads/" ++ e.repository.default_branch
            → svc.get_tenant_by_installation e.installation.id d ≡ some t
            → svc.get_repository t.id e.repository.full_name d ≡ some r
            → handle_push svc e d ≡ created (push_of e t r) d)
        × (((handle_push svc e d).1 ≡ d)
            ⊎ ((e.ref ≡ codes "refs/heads/" ++ e.repository.default_branch)
                × Creates e.installation.id e.repository.full_name
                    (push_of e)
                    d
                    (handle_push svc e d)))
  unfolding handle_push
  handle_push_lem e d =
      let same_ref = str_eq_iff e.ref (codes "refs/heads/" ++ e.repository.default_branch) in
      elim (Bool-cases (str_eq e.ref (codes "refs/heads/" ++ e.repository.default_branch))) [
        | inl hit ↦ rw hit (
          λ no. absurd (no (same_ref.0 hit)),
          λ t r _ p q.
              enqueue-created e.installation.id e.repository.full_name (push_of e) d t r p q,
          elim (enqueue-Creates e.installation.id e.repository.full_name (push_of e) d) [
            | inl same ↦ inl same
            | inr made ↦ inr (same_ref.0 hit, made)
          ],
        )
        | inr miss ↦ rw miss (λ _. refl, λ t r h. absurd (cc (same_ref.1 h)), inl refl)
      ]

module _ {D : Type 0} (svc : Services D) where
  -- The services, with each request for an ingestion written down.
  abbrev pub recorded : Services (D × List IngestionRequest)
  recorded = record {
    create_tenant =
        λ login id (d, asked). let (t, d') = svc.create_tenant login id d in (t, (d', asked));
    get_tenant_by_installation = λ id (d, asked). svc.get_tenant_by_installation id d;
    get_repository = λ tenant name (d, asked). svc.get_repository tenant name d;
    upsert_repository = λ tenant name id branch (d, asked).
        let (r, d') = svc.upsert_repository tenant name id branch d in (r, (d', asked));
    create_ingestion = λ request (d, asked).
        let (i, d') = svc.create_ingestion request d in (i, (d', asked ++ request ∷ []));
  }

  -- The head commit of the pull request is to be scored against its base branch, for the tenant of the installation
  -- and its repository.
  abbrev pub IsFor : PullRequestEvent → D → IngestionRequest → Type 0
  IsFor e d req =
      (t : Tenant) × (r : Repository) × (svc.get_tenant_by_installation e.installation.id d
        ≡ some t)
      × (svc.get_repository t.id e.repository.full_name d ≡ some r)
      × (req.tenant_id ≡ t.id)
      × (req.repo_id ≡ r.id)
      × (req.repo_full_name ≡ e.repository.full_name)
      × (req.commit_sha ≡ e.pull_request.head.sha)
      × (req.base_branch ≡ e.pull_request.base.ref)
      × (req.pr_number ≡ some e.number)
      × (req.installation_id ≡ e.installation.id)
      × (req.committed_at ≡ none)

  -- The outcome of each of the three cases: no new commits; new commits in a repository that is not known; and one
  -- request, whose error alone is the error of the handler.
  abbrev pub Asks : PullRequestEvent → D → Option HandleError × (D × List IngestionRequest) → Type 0
  Asks e d (error, (d', asked)) =
      ((¬ HasNewCommits e.action) × (error ≡ none) × (d' ≡ d) × (asked ≡ []))
      ⊎ ((HasNewCommits e.action
            × (¬ ((req : IngestionRequest) × IsFor e d req))
            × (error ≢ none)
            × (d' ≡ d)
            × (asked ≡ []))
          ⊎ (HasNewCommits e.action
              × ((req : IngestionRequest) × IsFor e d req
                  × (asked ≡ req ∷ [])
                  × (d' ≡ (svc.create_ingestion req d).1)
                  × ((error ≡ none) ↔ ((svc.create_ingestion req d).0 ≢ none)))))

  error_of-eq-none :
      {A : Type 0} (error : HandleError) (o : Option A) → (error_of error o ≡ none) ↔ (o ≢ none)
  unfolding error_of
  error_of-eq-none error none = (λ e. absurd (cc), λ h. absurd (h refl))
  error_of-eq-none error (some a) = (λ e f. absurd (cc), λ h. refl)

  abbrev asking : PullRequestEvent → D → Option HandleError × (D × List IngestionRequest)
  asking e d = enqueue recorded e.installation.id e.repository.full_name (pull_request_of e) (d, [])

  enqueue-Asks : (e : PullRequestEvent) (d : D) → HasNewCommits e.action → Asks e d (asking e d)
  unfolding enqueue
  enqueue-Asks e d new = elim (Option-cases (svc.get_tenant_by_installation e.installation.id d)) [
    | inl p ↦
        let out : asking e d ≡ (some HandleError.get_tenant_failed, (d, [])) =
          rw (enqueue, p) refl in
        subst (Asks e d) (sym out) (
          inr (
            inl (
              new,
              λ (req, known). let q = known.2 in absurd (cc (p, q)),
              λ f. absurd (cc),
              refl,
              refl,
            )))
    | inr (t, p) ↦ elim (Option-cases (svc.get_repository t.id e.repository.full_name d)) [
      | inl q ↦
          let out : asking e d ≡ (some HandleError.get_repository_failed, (d, [])) =
            rw (enqueue, p, q) refl in
          subst (Asks e d) (sym out) (inr (inl (new, unknown t p q, λ f. absurd (cc), refl, refl)))
      | inr (r, q) ↦
          let req = pull_request_of e t r in
          let out =
            enqueue-created recorded e.installation.id e.repository.full_name (pull_request_of e)
              (d, []) t r p q in
          subst (Asks e d) (sym out) (
            inr (
              inr (
                new,
                (
                  req,
                  (t, r, p, q, refl, refl, refl, refl, refl, refl, refl, refl),
                  refl,
                  refl,
                  error_of-eq-none HandleError.create_ingestion_failed
                      (svc.create_ingestion req d).0,
                ),
              )))
    ]
  ]
    where
      unknown :
          (t : Tenant)
          → svc.get_tenant_by_installation e.installation.id d ≡ some t
          → svc.get_repository t.id e.repository.full_name d ≡ none
          → ¬ ((req : IngestionRequest) × IsFor e d req)
      unknown t p q (req, known) =
          let both : some known.0 ≡ some t = sym known.2 ∙ p in
          let same : known.0 ≡ t = ground arith in
          let there =
            subst (λ x. svc.get_repository x.id e.repository.full_name d ≡ some known.1) same
              known.3 in
          cc (q, there)

  -- A pull request event without new commits does nothing, and is no error. With new commits, where the tenant or the
  -- repository is not known, the state is left as it is, with an error. Otherwise the one request to the ingestion
  -- service, as a record of all of them shows, is for the head commit against the base branch, with the number of the
  -- pull request, for the tenant of the installation and its repository; the handler fails if and only if it does.
  pub handle_pull_request_lem :
      (e : PullRequestEvent) (d : D) → Asks e d (handle_pull_request recorded e (d, []))
  unfolding handle_pull_request
  handle_pull_request_lem e d = elim (Bool-cases (is_handled e.action)) [
    | inl hit ↦ rw (handle_pull_request, hit) (enqueue-Asks e d ((is_handled_iff e.action).0 hit))
    | inr miss ↦
        rw (handle_pull_request, miss)
          (inl (λ h. cc ((is_handled_iff e.action).1 h), refl, refl, refl))
  ]
