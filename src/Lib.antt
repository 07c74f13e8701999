-- ===== src/Lib.antt =====
-- The server of OpenRPort: what it keeps about clients, users and secrets, and the rules by which it
-- lets them in.
--
-- The parts and where they stand. A client connects, is given ports for its tunnels and is kept in
-- the repository; users see a client through groups, call the API in sessions, and keep secrets in
-- the vault.
--   Security     share/security/banlist.go: the visitors that are banned (BanList,
--                MaxBadAttemptsBanList).
--   Ports        server/ports/port_distributor.go: GetRandomPort, Refresh, IsPortBusy. A distributor
--                is a record of the allowed ports and the pools; golang-set and gopsutil are
--                arguments.
--   Strings      the functions of Go's package strings that the others walk their texts with, and
--                Decimal, strconv's numbers in texts.
--   Remotes      share/models/remote.go: what a tunnel connects, and the notation for it.
--   Tunnels      server/clients/clienttunnel: tunnels and, in Acl, from where they may be used. What a
--                tunnel does outside the server is a record of operations on a world.
--   Groups       server/cgroups/group.go: MatchesOneOf and MatchesRawTags.
--   Clients      server/clients: Client (clientdata/client.go: BelongsTo, Obsolete, access), Access
--                (client_service.go: CheckClientsAccess), Store (sqlite.go, init.go), and Repository
--                (cr.go), which holds the clients in memory and writes through to the store. Of
--                client_service.go, Starting has StartTunnel and what leads to it, Reestablish the
--                tunnels that a client gets again, Service the state around the repository, with
--                StartClient in Connecting and the end of clients and tunnels in Ending.
--   Query        share/query: filters and sorts (filter.go, sort.go), the match of a value in memory
--                (matches_filter.go) and, in Sql, the conversion to a query (convert.go).
--   Pagination   share/query/pagination.go: ValidatePagination and GetStartEnd.
--   Sessions     server/api/session: Storage is the table of sqlite.go, Sessions the cache of cache.go
--                in front of it; go-cache is an argument.
--   Bearer       server/bearer/bearer_auth.go: the scopes of a token, and the check of a token against
--                its session; golang-jwt has parsed the token.
--   TwoFactor    server/2fa_auth.go: the second factor of a login.
--   Users        server/api/users: what groups permit their users (permissions.go, service.go) and, in
--                File, the users of a file behind their cache (file_adapter.go, file.go,
--                cache.go).
--   Enc          share/enc/aes.go: encryption under a password, over the standard library's ciphers.
--   Vault        server/vault: Model (model.go, validate.go), Provider (dbProvider.go) with the tables
--                of sqlite.go, Pass (pass.go) and Manager (manager.go), which uses Enc through Pass.
--   Prelude      shared helpers; Examples has a run for each result with conditions.
--
-- A method is a function from the object's state to the new state and a result. Where the source
-- holds a mutex for the whole call, the call is one step here. The repository of the clients and
-- the port distributor lock each access to a map alone, and Refresh and GetRandomPort not at all
-- between their steps; the model runs a call to its end before the next, and interleavings of two
-- calls are not modelled. In the repository a client is a value; the service, which changes clients that
-- it got from there, changes the repository's entry with them, under the client's id.
--
-- Numbers. Times are numbers of nanoseconds, and the clock is an argument. A counter of bad attempts
-- is not bounded, as it is reset at its maximum, nor is the count of a client's tunnels; an int of a page has 64 bits and wraps around.
-- Each loop runs over a list, so none needs fuel, save strconv.Itoa. In Strings.Decimal it gets as
-- fuel 20, the most digits that a 64-bit number has; in Pagination one more than its number, and that
-- is more than it has digits.
--
-- Not modelled: List of the vault, the filtered list of clients, the reading of a query string,
-- the goroutines that close a tunnel after a time, the listeners of a tunnel, stored tunnels,
-- the validation of a change of a user and the tables of users, commands and schedules, the agent,
-- the HTTP handlers, and failures inside SQLite, which a store or a provider that is an argument can
-- have.
pub mod Prelude
pub mod Strings
pub mod Security
pub mod Enc
pub mod Users
pub mod Vault
pub mod Ports
pub mod Groups
pub mod Clients
pub mod Pagination
pub mod Sessions
pub mod Bearer
pub mod Query
pub mod Remotes
pub mod Tunnels
pub mod TwoFactor
pub mod Examples
