-- ===== src/Lib.antt =====
-- A verification library of the bot "Routine": its economy extension and the small components of its
-- kernel that decide what is sent to Discord and when.
--
-- Parts of the program and how they interact. The bot (src/discord_bot.cpp) receives messages,
-- takes a command out of them (src/discord_command_utils.cpp), runs it, cuts the answer into
-- messages of a legal size (src/discord_message_utils.cpp) and sends them behind the rate limiter
-- (src/rate_limiter.cpp). Messages come over a websocket (src/websocket_client.cpp), and their
-- events go to handlers (src/event_dispatcher.cpp). The economy (lib/local_economy_extension.cpp)
-- is an extension that the kernel loads: its C functions lock a mutex, load the database, change
-- records in global tables, and save all of them at once; where saving fails they put the records
-- back. The economy's hourly cycle works on the market, the news and the dynamics of a server.
--
-- Files and code:
--   Base: lists, integers, byte strings and the tables that stand for std::unordered_map.
--   Kernel/Message: split_discord_message. Kernel/Command: parse_prefixed_command, and
--     valid_chat_input_command_name of src/discord_interaction_utils.cpp. Kernel/RateLimiter: the class
--     RateLimiter. Kernel/EventDispatcher: the class EventDispatcher. Kernel/Gateway: the class
--     WebSocketClient of src/websocket_client.cpp, its calls and its callbacks as steps in any order
--     (Kernel/Gateway/Queue), with the fragments of messages and the close codes in modules of their
--     own.
--   Economy/State: the structs and the global tables, as one record Store. Economy/Status: the answers
--     of include/economy_extension_api.h and the constants.
--   Economy/Accounts: key_for, ensure_player, valid_id, touch_global_player, sync_global_player,
--     add_bounded. Economy/Limits: state_invariants_hold and the outcome of save_locked.
--   Economy/Ledger: economy_get_player_impl, economy_move_money_impl, economy_buy_item_impl,
--     economy_flush_impl. Economy/Transfer: economy_transfer_impl. Economy/Claim: claim_impl, its
--     accruals and careers in the module itself and the call in Economy/Claim/Call.
--   Economy/Market: stock_spread, stock_fundamental_value, cancel_stock_orders, apply_stock_split.
--     Economy/Orders: process_orders. Economy/News: event_headline, apply_news_impact,
--     create_news_event. Economy/Dynamics: update_economic_dynamics, its stages in the module itself
--     and the news of the hour and the whole cycle in Economy/Dynamics/Cycle.
--     Economy/Worth: the values of businesses, properties and portfolios;
--     Economy/Banks: update_bank_network. Economy/Worth/Leaderboard: economy_leaderboard_impl, its
--     std::sort as a sort by insertion.
--     Economy/Market/Share and Economy/Market/Hour: update_market, one stock and the whole hour.
--     Economy/Money: cash and parse_cash, with Base/Decimal for decimal numbers. Economy/Snapshot:
--     calculate_snapshot, and record_snapshot in Economy/Snapshot/History.
--   Economy/Tick: economy_tick_all_impl, a module for each of its loops (Election, Heat, Auction with
--     settle_auction, Property, Agreement, Company, Debt) and the whole call in Economy/Tick/Whole.
--   The child modules of a component prove what their names say; the modules Tests hold small runs and
--   instances.
--
-- How state and operations correspond. A call takes the store and gives back its answer and the store
-- behind it; a reference into a table is a lookup before and an insertion behind. std::unordered_map is
-- an association list, and what is proved of a table is said of its lookups and sums; operator[]
-- enters a default record, at() of a known key is a lookup. A write to an array out of bounds changes
-- nothing, and a read gives a default; the code's indices are in range where its own checks hold.
-- A loop over a table goes over the entries that the table has when the loop begins, in their order.
-- Ids are byte strings, where the empty one also stands for a null pointer; result pointers are not
-- null. The store is the one behind load_locked, and the mutex makes each call one step.
--
-- Numbers. Signed integers are ℤ without bounds, so overflow of int64_t is not modelled; division cuts
-- off towards zero as in C++. Unsigned integers are natural numbers with the reduction modulo 2^32
-- or 2^64 written out where the code adds or multiplies them. Times of the steady clock are in
-- nanoseconds.
--
-- Arguments that stand for what is not in the repository: whether the file could be written
-- (`written`), std::time (`clock`), the steady clock (`now`, `later`), the random generator
-- (`uniform` `noise`, `luck`, `drift` and the record Chance; for `uniform` the documented range
-- of std::uniform_int_distribution is the hypothesis IsUniform), std::hash (`hash`), the text of
-- an audit entry (`summary`), how an event handler ends (`ends`), what libwebsockets gives and
-- reports (arguments of the steps of Kernel/Gateway) and the sleep (Sleeps: it lasts at least as
-- long as was asked for).
--
-- Fuel. The loop of split_discord_message has fuel one above the length of the message; each round
-- moves forward, so it is enough, which is part of the theorem. All other loops are structural.
--
-- Not modelled: the loop of the heartbeat thread of the gateway, JSON documents, the HTTP client,
-- dynamic loading, Lua and scripts, YAML configuration, the text format of the database, logging;
-- and of the economy extension the text commands of economy_game_action with what only they use
-- (contracts, collectibles, company management).
pub mod Base
pub mod Kernel
pub mod Economy
