-- ===== src/Lib.antt =====
-- Mesh2Mesh: the web console, which is a Node.js server (web/src/backend) and a React application
-- (web/src/frontend), and parts of the control plane, which is in Go (internal). The web server
-- keeps sessions for users who log in at an OIDC provider, forwards their requests to the control
-- plane with a shared token, and serves the built application. The application asks the server for
-- everything that it shows, and makes commands for `meshd`, which users run on their machines. The
-- control plane keeps tenants with their members and invites, enrolls machines and gives them their
-- addresses, probes whether they can be reached, and relays datagrams between those that cannot.
--
-- Base holds what the parts share: texts as lists of code points, Boolean tests on the native
-- numbers, lists, a store as an association list, regular expressions as matchers with a
-- continuation, and the encodings of URLs. `lit` turns a literal into a text and stays shut.
--
-- Backend, one module per file of web/src/backend, and oidc.mjs in six:
--   Http: http.mjs. Config: config.mjs, as a function of the environment. Session: session.mjs.
--   AuthRoutes: auth-routes.mjs. Proxy: proxy.mjs. Static: static.mjs. Index: index.mjs.
--   Cookies, Provider, Oidc, Login, Callback and Logout: oidc.mjs. `Auth` is the state inside
--   `createAuth`. A handler maps a request and that state to an outcome and the state after it;
--   `callback` is cut at its first `await`, so that other requests can run in between, which
--   Callback.Interleaving states as a step relation.
--   What Node.js and `jose` do is in the records `Platform`, `World` and `Files`, parameters of the
--   model: hashing, `new URL`, `jwtVerify`, the answers of `fetch`, random tokens, the clock,
--   `node:path` and the file system. A fetch that rejects and one that times out are the same.
--
-- Frontend, one module per file of web/src/frontend with logic of its own:
--   Api: api.ts. Peer, Time, Shell, CurrentTenant and Theme: the files of lib. Router: router.tsx
--   and main.tsx. Login: routes/login.tsx. Machines, Members, Tenants and Devices: routes/admin.
--   Layout: routes/admin/layout.tsx, routes/invite.tsx and components/copy.tsx. Hooks: what
--   `useQuery`, `useMutation` and `localStorage` give a page.
--   A page is the data that it shows, as a function of its state and its queries, with a function
--   for each of its handlers; what a handler asks of the libraries is a list of `Effect`s.
--   A call has the path that api.ts writes; where Api/Forwarded hands it to the server, it is shown
--   to hold nothing that URL parsing takes away. Shell/Words is a reader of POSIX quoting.
--   The browser's locale is a parameter: `toLowerCase`, `toUpperCase` and `localeCompare`.
--
-- Control, one module per file of internal, each with children for its proofs:
--   Netip: what these files use of net/netip. Wire: wire/wire.go. Relay: relay/relay.go; a
--   `*session` is a number under which the heap holds it, and a Go map is a function. Addr:
--   store/addr.go. Store and Registry: store/members.go and store/store.go, of which
--   Registry/Enroll has the tokens and RegisterPeer; a table is a list of rows, newest first, and a
--   method is a function from the tables to its outcome and the tables after it. Access and
--   Machines: the handlers of api/members.go, and those of api/tenants.go, api/tokens.go and
--   api/peers.go, of which Machines/Endpoint has updateEndpoint and issueRelayToken, with
--   api/http.go; a handler maps a route and the tables to a reply and the tables after it. Prober:
--   prober/prober.go; a call of `Reachable` and its channel have a number, and the calls and the
--   read loop take their steps in any order.
--   Plane: all of these together, as cmd/controlplane/main.go joins them; Plane/Reach is the step
--   relation of requests, calls and datagrams, with the history of what was called and heard.
--   Backend/Proxy/Meets is where the web server and the control plane meet: a header is carried as
--   `fetch` and net/http do it, which is as it is only for visible characters of ASCII.
--   What is drawn at random, and the time, are arguments. Parameters: the shared token, SHA-256,
--   `strings.TrimSpace`, `url.QueryUnescape`, `netip.ParsePrefix`, `netip.ParseAddrPort` and
--   `Addr.String`. Of ParsePrefix it is used that the address of a prefix is below 2 ^ 32, or for
--   IPv6 below 2 ^ 128.
--   Each operation runs as one step: the relay and the prober hold their mutexes, and the store's
--   transactions lock the rows that they read. Two enrollments at once with different tokens of
--   one tenant may choose one address; the unique index then refuses one of them, with
--   `ErrConflict`, which is left out here. The database answers; that it fails is left out.
--
-- Every loop is structural recursion but the search for a free address, which has fuel: as much as
-- the range has addresses is enough, since it looks at each address once. Numbers are natural: a
-- time is in milliseconds after 1970, in Store, Registry, Access and Machines in nanoseconds. Where
-- Go multiplies in 64 bits, the remainder is written out. Texts are code points, and the places
-- where the source counts UTF-16 units (the first eight characters of an id, initials) count code
-- points here.
--
-- Not modelled: components/ui, logos and styles, the landing page, the router and query client
-- themselves, the listening socket and its signals; of the programs in Go, what a view shows of a
-- row, the start of the control plane with TrustProxies (a request's source is what it makes of
-- it), meshd with its client, and logging.
pub mod Base
pub mod Control
pub mod Backend
pub mod Frontend
